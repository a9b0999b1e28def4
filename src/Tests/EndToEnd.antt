-- ===== src/Tests/EndToEnd.antt =====
-- A producer and a consumer over one small topic.
use mathlib.Core.List.{Perm}
use mathlib.Core.List.Perm
use uzh_blockchain_data_coll.Base.{
  ℕ, ◌≡◌, refl, arith, none, some, true, false, inl, inr, List, [], ◌∷◌, map, ◌==◌, contains,
  nat_eq, list_eq, pair_eq, ◌||◌, Bool-cases,
}
use uzh_blockchain_data_coll.Base.Int.{pos}
use uzh_blockchain_data_coll.Base.Text.{Str, str}
use uzh_blockchain_data_coll.Errors.{ok}
use uzh_blockchain_data_coll.Model.{full}
use uzh_blockchain_data_coll.Model.Rows.{
  BlockData, TransactionLogsData, TransactionReceiptData, InternalTransactionData,
}
use uzh_blockchain_data_coll.Base.Dict.{lookup}
use uzh_blockchain_data_coll.World.{World}
use uzh_blockchain_data_coll.Collector.{separator, encode_kafka_event}
use uzh_blockchain_data_coll.Db.Tables.{transaction_key, log_key, InternalRow}
use uzh_blockchain_data_coll.Db.Table.{has_key}
use uzh_blockchain_data_coll.Pipeline.Logs.{log_rows}
use uzh_blockchain_data_coll.Pipeline.Internal.{internal_rows}
use uzh_blockchain_data_coll.Db.Lookup.{find_row, or_else, only_if}
use uzh_blockchain_data_coll.Node.{get_internal_transactions, get_block_reward}
use uzh_blockchain_data_coll.Redis.Memory.{memory_set}
use uzh_blockchain_data_coll.Kafka.{Manager}
use uzh_blockchain_data_coll.Consumer.{Event, DataConsumer, start_consuming_data}
use uzh_blockchain_data_coll.Producer.{State, producer_task, block_reward_of}
use uzh_blockchain_data_coll.Producer.Blocks.{write_blocks, block_messages, start_producer_writes}
use uzh_blockchain_data_coll.Producer.Messages.{block_hashes}
use uzh_blockchain_data_coll.Kafka.Partition.{messages}
use uzh_blockchain_data_coll.Pipeline.Consumed.{Answer, IsServed, row_of}
use uzh_blockchain_data_coll.Pipeline.EndToEnd.{producer_task-start_consuming_data}
use uzh_blockchain_data_coll.Tests.Setting.{
  small_world, a_log, small_topic, small_topic-IsReliable, small_abi, small_cache, fresh_manager,
  fresh_manager-IsSound, no_rows, no_state, block_1, block_2, a_transaction, a_receipt,
}

-- Every transaction has one log.
abbrev log_of_tx : Str → TransactionLogsData
log_of_tx h = record a_log { transaction_hash = some h }

abbrev receipt_of : Str → TransactionReceiptData ℕ
receipt_of h = record a_receipt { logs = some (log_of_tx h ∷ []) }

-- Every transaction has one internal transaction.
abbrev logged_world : World
logged_world = record small_world {
  get_transaction_receipt = λ h. ok (receipt_of h, tt);
  trace_replay = λ h. ok (record { action = (str "from", str "0xaa") ∷ []; result = none } ∷ []);
}

abbrev inner_call : InternalTransactionData ℕ
inner_call = record {
  from_address = some (str "0xaa");
  to_address = none;
  value = none;
  gas_used = none;
  gas_limit = none;
  input_data = none;
  call_type = none;
}

abbrev pub begin : State ℕ (Manager memory_set)
begin = record { db = no_rows; topic = fresh_manager; i_processed_block = none }

abbrev rewarded_blocks : List (BlockData × ℕ)
rewarded_blocks = (block_1, 15) ∷ (block_2, 15) ∷ []

reward_15 : (i : ℕ) → block_reward_of logged_world small_topic true i ≡ ok 15
unfolding block_reward_of get_block_reward nat_eq list_eq
reward_15 i = refl

-- The run of the producer, with the messages that it leaves.
produced :
    (s' : State ℕ (Manager memory_set)) × (producer_task logged_world small_topic 9
        (ok [])
        (record { mode = full; start_block = some 1; end_block = some 5 })
        begin
      ≡ some (ok tt, s'))
    × (messages s'.topic.sent ≡ block_messages full rewarded_blocks)
unfolding producer_task
produced =
    let w =
      start_producer_writes logged_world small_topic small_topic-IsReliable full true 5
        rewarded_blocks 9 1 begin fresh_manager-IsSound
        ((refl, reward_15 1, (refl, reward_15 2, tt))) (inr (omega arith, refl)) (omega arith) in
    (w.0, w.1, w.3)

abbrev pub message : ℕ → Str → Event
message k h = record { partition = k; value = encode_kafka_event h full }

-- The messages in another order than they were sent.
abbrev pub arrived : List Event
arrived = message 1 (str "0x12") ∷ message 0 (str "0x11") ∷ message 0 (str "0x21") ∷ []

arrived-perm : Perm (map (λ (e : Event). e.value) arrived) (messages (produced.0.topic.sent))
arrived-perm = rw produced.2 (Perm.swap _ _ _)

abbrev answer : Str → Answer ℕ (Unit {0})
answer h = record {
  tx = a_transaction h;
  receipt_data = receipt_of h;
  receipt = tt;
  price = 3;
  used = 20;
  logs = log_of_tx h ∷ [];
  internal = inner_call ∷ [];
}

answered : (h : Str) → IsServed logged_world h (answer h)
unfolding get_internal_transactions lookup nat_eq list_eq
answered h = record {
  found = refl;
  received = refl;
  hash = refl;
  priced = refl;
  gas = refl;
  logged = refl;
  keys = (((h, 4), refl), tt);
  traced = refl;
}

plain_parts :
    (contains (str "0x11") separator ≡ false)
    × (contains (str "0x12") separator ≡ false)
    × (contains (str "0x21") separator ≡ false)
unfolding nat_eq
plain_parts = (refl, refl, refl)

plain_hash :
    (h : Str) → contains (block_hashes rewarded_blocks) h ≡ true → contains h separator ≡ false
plain_hash h there = elim (Bool-cases (h == str "0x11")) [
  | inl e ↦ let same : h ≡ str "0x11" = ground arith in rw same plain_parts.0
  | inr n ↦ elim (Bool-cases (h == str "0x12")) [
    | inl e ↦ let same : h ≡ str "0x12" = ground arith in rw same plain_parts.1
    | inr n' ↦ let same : h ≡ str "0x21" = ground arith in rw same plain_parts.2
  ]
]

abbrev follower : DataConsumer logged_world memory_set small_abi small_cache
follower = record {
  processor = record no_state { db = produced.0.db };
  redis = (0, pos 2) ∷ (1, pos 1) ∷ [];
  tx_hash = none;
  n_consumed_txs = 0;
  n_processed_txs = 0;
}

producer_task-start_consuming_data_example :
    let (code, c') =
      start_consuming_data logged_world memory_set small_abi small_cache arrived follower in
    (code ≡ 0)
    × (c'.n_consumed_txs ≡ 3)
    × (c'.n_processed_txs ≡ 3)
    × (c'.processor.db.block ≡ write_blocks rewarded_blocks [])
    × ((k : Str)
        → find_row transaction_key k c'.processor.db.transaction
          ≡ or_else none (
              only_if
                (contains (block_hashes rewarded_blocks) k)
                (row_of logged_world memory_set small_abi small_cache answer k)))
    × ((q : Str × ℕ)
        → has_key log_key q c'.processor.db.transaction_logs ≡ (
            has_key log_key q []
            || has_key log_key q (
                log_rows logged_world memory_set small_abi small_cache answer
                  (block_hashes rewarded_blocks))))
    × ((rows : List (InternalRow ℕ)) × Perm rows (
          internal_rows logged_world memory_set small_abi small_cache answer
            (block_hashes rewarded_blocks))
        × (c'.processor.db.internal_transaction ≡ rows))
unfolding find_row
producer_task-start_consuming_data_example =
    producer_task-start_consuming_data logged_world memory_set small_abi small_cache answer
      small_topic small_topic-IsReliable rewarded_blocks 9 1 5 (ok []) begin (produced.0) arrived
      follower fresh_manager-IsSound refl ((refl, reward_15 1, (refl, reward_15 2, tt)))
      (inr (omega arith, refl)) (omega arith) (produced.1) refl arrived-perm
      (λ h there. (plain_hash h there, answered h))
