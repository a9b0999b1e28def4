-- ===== src/Tests/Interleaving.antt =====
-- Two producers and a consumer over one partition: a message is read before it is counted.
use uzh_blockchain_data_coll.Base.{
  [], ◌∷◌, ◌≡◌, ◌≤◌, ◌+◌, ◌*◌, refl, arith, some, none, true, nat_eq,
}
use uzh_blockchain_data_coll.Base.Int.{pos, negsuc, ◌+ℤ◌, ◌≤ℤ◌}
use uzh_blockchain_data_coll.Base.Text.{Str, str}
use uzh_blockchain_data_coll.Errors.{ok}
use uzh_blockchain_data_coll.Redis.{get_n_transactions, decr_transactions}
use uzh_blockchain_data_coll.Redis.Memory.{memory_set, memory_set-IsLawful, add_score}
use uzh_blockchain_data_coll.Kafka.{Broker, fill_batch}
use uzh_blockchain_data_coll.Kafka.Chunks.{chunks_of}
use uzh_blockchain_data_coll.Flow.Tasks.{call, read_empty, deliver, receive, decrement}
use uzh_blockchain_data_coll.Flow.System.{System, Size, Reach, start, later, produce, consume}
use uzh_blockchain_data_coll.Flow.Family.{sum_of}
use uzh_blockchain_data_coll.Flow.Count.{Reach-n_txs}
use uzh_blockchain_data_coll.Flow.Bounds.{Reach-n_waiting_le}
use uzh_blockchain_data_coll.Flow.Allowed.{limit}

abbrev message : Str
message = str "full,0x12"

abbrev broker : Broker
broker = record {
  accepts = λ held msg. true;
  deliver = λ k batch. ok (some k);
  deliver_message = λ msg. ok none;
  partitions = λ i. 1;
}

abbrev small : Size
small = record { n_part = 1; max_msgs = 1; n_producers = 2; n_consumers = 1 }

-- The first producer has delivered and not counted yet; the consumer is in its callback.
unfoldable overtaken : (s : System memory_set.State) × Reach memory_set broker small [] s
unfolding chunks_of fill_batch get_n_transactions nat_eq
overtaken = (
  _,
  later
      (later
        (later
          (later (later start (produce 0 (omega arith) (call (message ∷ []) (omega arith))))
            (produce 0 (omega arith) (read_empty refl)))
          (produce 0 (omega arith) (deliver 0 (omega arith))))
        (consume 0 (omega arith) (receive 0 (omega arith) refl)))
      (consume 0 (omega arith) (decrement 0)),
)

-- Redis has counted one message fewer than none: the message was read before it was counted.
Reach-n_txs_example : negsuc 0 +ℤ pos (1 + 0) ≡ pos 0 +ℤ pos (0 + 0)
unfolding overtaken get_n_transactions add_score sum_of decr_transactions nat_eq ◌+ℤ◌
Reach-n_txs_example = Reach-n_txs memory_set-IsLawful broker small [] overtaken.0 overtaken.1

Reach-n_waiting_le_example : (negsuc 0 ≤ℤ pos (limit 1 + 2 * 1)) × (0 ≤ limit 1 + 2 * 1 + 0)
unfolding overtaken get_n_transactions add_score sum_of decr_transactions nat_eq ◌+ℤ◌
Reach-n_waiting_le_example =
    Reach-n_waiting_le memory_set-IsLawful broker small [] overtaken.0 refl overtaken.1
