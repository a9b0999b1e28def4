-- ===== src/Tests/Transport.antt =====
-- Messages, the topic and the connection on concrete inputs.
use uzh_blockchain_data_coll.Base.{
  ℕ, zero, suc, ◌*◌, ◌≤◌, ◌<◌, ◌≡◌, ◌≢◌, refl, arith, none, some, true, false, List, [], ◌∷◌, ◌++◌,
  contains, list_eq, nat_eq, Option,
}
use uzh_blockchain_data_coll.Base.Int.{pos, ◌≤ℤ◌, int_eq}
use uzh_blockchain_data_coll.Base.Text.{Str, str}
use uzh_blockchain_data_coll.Errors.{ok, Exc, err, kafka_connection, manager_error}
use uzh_blockchain_data_coll.Model.{partial}
use uzh_blockchain_data_coll.Collector.{encode_kafka_event, decode_kafka_event, separator}
use uzh_blockchain_data_coll.Collector.Codec.{decode-encode, encode-decode}
use uzh_blockchain_data_coll.Redis.Memory.{memory_set, memory_set-IsLawful}
use uzh_blockchain_data_coll.Kafka.{Manager, send_batch}
use uzh_blockchain_data_coll.Kafka.Limits.{max_messages_per_partition}
use uzh_blockchain_data_coll.Kafka.Partition.{IsSound, messages, send_batch-messages}
use uzh_blockchain_data_coll.Kafka.Capacity.{
  Reading, wait_for_space, wait_for_space_sound, wait_for_space_ends, wait_for_space_spins,
}
use uzh_blockchain_data_coll.Kafka.Connect.{connect, connect_succeeds, connect_gives_up}
use uzh_blockchain_data_coll.Tests.Setting.{small_broker, fresh_manager, fresh_manager-IsSound}

plain_hash : contains (str "0x11") separator ≡ false
unfolding nat_eq
plain_hash = refl

decode-encode_example :
    decode_kafka_event (encode_kafka_event (str "0x11") partial) ≡ ok (partial, str "0x11")
decode-encode_example = decode-encode (str "0x11") partial plain_hash

encode-decode_example :
    (encode_kafka_event (str "0x11") partial ≡ encode_kafka_event (str "0x11") partial)
    × (contains (str "0x11") separator ≡ false)
encode-decode_example =
    encode-decode (encode_kafka_event (str "0x11") partial) (str "0x11") partial
      decode-encode_example

mixed_hash : contains (str "0x:1") separator ≡ true
unfolding nat_eq
mixed_hash = refl

abbrev three : List Str
three = str "partial:0x11" ∷ str "partial:0x12" ∷ str "partial:0x21" ∷ []

send_batch-messages_example :
    (ks : List ℕ) × (m' : Manager memory_set) × (send_batch memory_set small_broker three
        fresh_manager
      ≡ (ok (some ks), m'))
    × IsSound memory_set small_broker 2 (pos 0) m'
    × (messages m'.sent ≡ messages (fresh_manager.sent) ++ three)
send_batch-messages_example =
    send_batch-messages memory_set small_broker 2 (pos 0) memory_set-IsLawful (omega arith)
      (λ i. refl) (λ k batch. refl) (λ held msg. refl) three fresh_manager fresh_manager-IsSound

-- Over the limit at first, then within it.
abbrev draining : ℕ → Reading
draining zero = record { n_txs = pos 2500; n_part = 2 }
draining (suc i) = record { n_txs = pos 1800; n_part = 2 }

drained : wait_for_space draining 3 ≡ some 1
unfolding wait_for_space int_eq nat_eq
drained = refl

wait_for_space_sound_example :
    (j : ℕ) × ((draining j).n_txs ≤ℤ pos (max_messages_per_partition * (draining j).n_part))
    × (1 ≤ j)
    × (j < 3)
wait_for_space_sound_example = wait_for_space_sound draining 3 1 drained

wait_for_space_ends_example : wait_for_space draining 3 ≢ none
unfolding int_eq
wait_for_space_ends_example =
    wait_for_space_ends draining 3 1 (omega arith) (λ h. cc) (ground arith)

-- Over the limit at first, then empty.
abbrev emptied : ℕ → Reading
emptied zero = record { n_txs = pos 2500; n_part = 2 }
emptied (suc i) = record { n_txs = pos 0; n_part = 2 }

emptied_later : (j : ℕ) → 0 < j → (emptied j).n_txs ≡ pos 0
emptied_later zero lt = absurd (omega arith)
emptied_later (suc j) lt = refl

wait_for_space_spins_example : wait_for_space emptied 40 ≡ none
wait_for_space_spins_example = wait_for_space_spins emptied refl emptied_later 40

-- Two attempts without a broker, then one with it.
abbrev late_broker : ℕ → Option Exc
late_broker zero = some kafka_connection
late_broker (suc zero) = some kafka_connection
late_broker (suc (suc i)) = none

late_broker_first : (k : ℕ) → k < 2 → late_broker k ≡ some kafka_connection
late_broker_first zero lt = refl
late_broker_first (suc zero) lt = refl
late_broker_first (suc (suc k)) lt = absurd (omega arith)

connect_succeeds_example :
    connect late_broker none ≡ record { outcome = ok tt; starts = 3; stopped = false }
connect_succeeds_example = connect_succeeds late_broker none 2 (omega arith) late_broker_first refl

connect_gives_up_example :
    connect (λ i. some kafka_connection) none
    ≡ record { outcome = err manager_error; starts = 10; stopped = true }
connect_gives_up_example = connect_gives_up (λ i. some kafka_connection) none (λ k lt. refl) refl
