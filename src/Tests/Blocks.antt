-- ===== src/Tests/Blocks.antt =====
-- The producer, the explorer and the block table on concrete inputs.
use uzh_blockchain_data_coll.Base.{
  Option, ◌==◌, ℕ, ◌≡◌, ◌≢◌, refl, arith, none, some, true, false, inr, List, [], ◌∷◌, ◌++◌, nat_eq,
}
use uzh_blockchain_data_coll.Db.{insert_block, get_block, latest, by_number}
use uzh_blockchain_data_coll.Db.Tables.{BlockRow, block_key, Db}
use uzh_blockchain_data_coll.Db.Lookup.{find_row, or_else, only_if}
use uzh_blockchain_data_coll.Producer.{
  block_row, State, start_producer, encode_all, block_reward_of,
}
use uzh_blockchain_data_coll.Db.Reading.{IsLatest, get_block-insert_block}
use uzh_blockchain_data_coll.Base.Int.{pos}
use uzh_blockchain_data_coll.Errors.{ok, err, type_error}
use uzh_blockchain_data_coll.Model.{full}
use uzh_blockchain_data_coll.Model.Rows.{BlockData}
use uzh_blockchain_data_coll.Redis.Memory.{memory_set}
use uzh_blockchain_data_coll.Kafka.{Manager}
use uzh_blockchain_data_coll.Kafka.Partition.{messages, IsSound}
use uzh_blockchain_data_coll.Producer.Ends.{start_producer_total}
use uzh_blockchain_data_coll.Producer.Blocks.{
  write_blocks, block_messages, start_producer_writes, start_producer_no_end,
}
use uzh_blockchain_data_coll.Tests.Setting.{
  small_world, small_topic, small_broker, small_topic-IsReliable, fresh_manager,
  fresh_manager-IsSound, no_rows, block_1, block_2,
}

abbrev start : State ℕ (Manager memory_set)
start = record { db = no_rows; topic = fresh_manager; i_processed_block = none }

abbrev both_blocks : List (BlockData × ℕ)
both_blocks = (block_1, 0) ∷ (block_2, 0) ∷ []

no_reward : (i : ℕ) → block_reward_of small_world small_topic false i ≡ ok 0
unfolding block_reward_of
no_reward i = refl

start_producer_writes_example :
    (s' : State ℕ (Manager memory_set)) × (start_producer small_world small_topic 9 false
        (record { mode = full; start_block = some 1; end_block = some 5 })
        start
      ≡ some (ok tt, s'))
    × (s'.db ≡ record no_rows { block = write_blocks both_blocks [] })
    × (messages s'.topic.sent ≡ [] ++ block_messages full both_blocks)
    × (s'.i_processed_block ≡ some 2)
    × IsSound memory_set small_broker 2 (pos 0) s'.topic
start_producer_writes_example =
    start_producer_writes small_world small_topic small_topic-IsReliable full false 5 both_blocks 9
      1 start fresh_manager-IsSound ((refl, no_reward 1, (refl, no_reward 2, tt)))
      (inr (omega arith, refl)) (omega arith)

start_producer_no_end_example :
    (s' : State ℕ (Manager memory_set)) × (start_producer small_world small_topic 9 false
        (record { mode = full; start_block = some 1; end_block = none })
        start
      ≡ some (err type_error, s'))
    × (s'.db ≡ record no_rows { block = write_blocks ((block_1, 0) ∷ []) [] })
    × (messages s'.topic.sent ≡ [] ++ encode_all full (block_1.transactions))
    × (s'.i_processed_block ≡ some 1)
start_producer_no_end_example =
    start_producer_no_end small_world small_topic small_topic-IsReliable full false 5 8 1 block_1 0
      start fresh_manager-IsSound refl (no_reward 1)

start_producer_total_example :
    start_producer small_world small_topic 7 true
      (record { mode = full; start_block = none; end_block = some 5 })
      start
    ≢ none
start_producer_total_example =
    start_producer_total small_world small_topic true
      (record { mode = full; start_block = none; end_block = some 5 }) 7 start (omega arith)

-- The run over both blocks.
abbrev first_row : Db ℕ
first_row = record no_rows { block = block_row block_1 0 ∷ [] }

get_block-insert_block_example :
    let db' = (insert_block (block_row block_2 0) first_row).1 in
    (o : Option BlockRow) × (get_block latest db' ≡ (ok o, db'))
    × IsLatest db'.block o
    × (get_block (by_number 2) db' ≡ (
      ok (
          or_else
            (find_row block_key 2 (block_row block_1 0 ∷ []))
            (only_if (◌==◌ {A = ℕ} 2 2) (block_row block_2 0))),
      db',
    ))
get_block-insert_block_example = get_block-insert_block (block_row block_2 0) first_row 2
