-- ===== src/Kafka/Topic.antt =====
-- The Kafka manager as the topic of a producer: `send_batch` meets what the producer relies on.
use uzh_blockchain_data_coll.Base.{ℕ, ◌<◌, some, true, List, ◌++◌, ◌≡◌, arith}
use uzh_blockchain_data_coll.Base.Int.{ℤ}
use uzh_blockchain_data_coll.Base.Text.{Str}
use uzh_blockchain_data_coll.Errors.{ok, ◌>>=◌, pure}
use uzh_blockchain_data_coll.Redis.{SortedSet, IsLawful}
use uzh_blockchain_data_coll.Kafka.{Broker, Manager, send_batch}
use uzh_blockchain_data_coll.Kafka.Partition.{IsSound, messages, send_batch-messages}
use uzh_blockchain_data_coll.Producer.{Topic, IsReliable}

abbrev pub kafka_topic : SortedSet → Broker → Topic
kafka_topic S b = record {
  State = Manager S;
  send_batch = λ msgs. send_batch S b msgs >>= λ records. pure tt;
}

module _ (S : SortedSet) (b : Broker) (n : ℕ) (base : ℤ) (L : IsLawful S) (some_partition : 0 < n)
    (fixed : (i : ℕ) → b.partitions i ≡ n)
    (delivers : (k : ℕ) (batch : List Str) → b.deliver k batch ≡ ok (some k))
    (accepts : (held : List Str) (msg : Str) → b.accepts held msg ≡ true) where
  pub topic_send :
      (msgs : List Str) (m : Manager S)
      → IsSound S b n base m
      → (m' : Manager S) × ((kafka_topic S b).send_batch msgs m ≡ (ok tt, m'))
        × IsSound S b n base m'
        × (messages m'.sent ≡ messages m.sent ++ msgs)
  topic_send msgs m h =
      let (ks, m', sent, sound, same) =
        send_batch-messages S b n base L some_partition fixed delivers accepts msgs m h in
      (m', ground (arith, sent), sound, same)

  abbrev pub kafka_topic-IsReliable : IsReliable (kafka_topic S b)
  kafka_topic-IsReliable = record {
    Good = IsSound S b n base;
    messages = λ m. messages m.sent;
    send = topic_send;
  }
