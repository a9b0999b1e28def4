-- ===== src/Pipeline/EndToEnd.antt =====
-- A producer and a consumer of the mode full, one behind the other, over one topic and one database.
use mathlib.Core.List.{Perm}
use uzh_blockchain_data_coll.Base.{
  ℕ, ◌+◌, ◌<◌, some, true, List, [], ◌++◌, map, contains, length, list_eq, pair_eq, ◌||◌, nat_eq,
  ◌≡◌, refl, sym, ap, ◌∙◌, arith,
}
use uzh_blockchain_data_coll.Base.Text.{Str}
use uzh_blockchain_data_coll.Base.Perms.{contains-perm, length-perm, flat_map-perm}
use uzh_blockchain_data_coll.Errors.{Result, ok}
use uzh_blockchain_data_coll.Model.{full}
use uzh_blockchain_data_coll.Model.Rows.{BlockData}
use uzh_blockchain_data_coll.World.{World}
use uzh_blockchain_data_coll.Db.Tables.{transaction_key, log_key, InternalRow}
use uzh_blockchain_data_coll.Db.Table.{has_key}
use uzh_blockchain_data_coll.Pipeline.Logs.{log_rows, has_key-stored_all, has_key-log_rows_perm}
use uzh_blockchain_data_coll.Pipeline.Internal.{traced_rows, internal_rows, stored_all-internal}
use uzh_blockchain_data_coll.Db.Lookup.{find_row, or_else, only_if}
use uzh_blockchain_data_coll.Parser.{ConfigCache, ContractAbi}
use uzh_blockchain_data_coll.Redis.{SortedSet}
use uzh_blockchain_data_coll.Consumer.{Event, DataConsumer, start_consuming_data, exit_code_of}
use uzh_blockchain_data_coll.Producer.{
  Topic, IsReliable, State, producer_task, start_producer, encode_all,
}
use uzh_blockchain_data_coll.Producer.Blocks.{write_blocks, Serves, StopsAt, start_producer_writes}
use uzh_blockchain_data_coll.Producer.Messages.{block_hashes}
use uzh_blockchain_data_coll.Pipeline.Consumed.{
  Answer, IsReadable, row_of, start_consuming-full, stored_all-block, find_row-stored_all,
}
use uzh_blockchain_data_coll.Pipeline.Received.{hash_of, block_messages-encode_all, received_lem}

module _ (W : World) (S : SortedSet) (abi : ContractAbi W.Abi) (cache : ConfigCache)
    (node : Str → Answer W.Float W.Receipt) where
  -- The consumer's part: it gets the messages of these hashes, each once and in any order.
  consumer_stores :
      (hs : List Str) (es : List Event) (c : DataConsumer W S abi cache)
      → Perm (map (λ (e : Event). e.value) es) (encode_all full hs)
      → ((h : Str) → contains hs h ≡ true → IsReadable W (node h) h)
      → let (code, c') = start_consuming_data W S abi cache es c in
        (code ≡ 0)
        × (c'.n_consumed_txs ≡ c.n_consumed_txs + length hs)
        × (c'.n_processed_txs ≡ c.n_processed_txs + length hs)
        × (c'.processor.db.block ≡ c.processor.db.block)
        × ((k : Str)
            → find_row transaction_key k c'.processor.db.transaction
              ≡ or_else
                  (find_row transaction_key k c.processor.db.transaction)
                  (only_if (contains hs k) (row_of W S abi cache node k)))
        × ((q : Str × ℕ)
            → has_key log_key q c'.processor.db.transaction_logs ≡ (
                has_key log_key q c.processor.db.transaction_logs
                || has_key log_key q (log_rows W S abi cache node hs)))
        × ((rows : List (InternalRow W.Float)) × Perm rows (internal_rows W S abi cache node hs)
            × (c'.processor.db.internal_transaction ≡ c.processor.db.internal_transaction ++ rows))
  unfolding start_consuming_data exit_code_of
  consumer_stores hs es c p readable =
      let vs = map (λ (e : Event). e.value) es in
      let ks = map hash_of vs in
      let (encoded, q) = received_lem full hs vs (λ h there. (readable h there).0) p in
      let known = λ (h : Str) (there : contains ks h ≡ true).
        readable h (sym (contains-perm h ks hs q) ∙ there) in
      let run = start_consuming-full W S abi cache node es ks c encoded known in
      let n = length-perm ks hs q in
      rw run.ends (
        refl,
        omega (arith, run.consumed),
        omega (arith, run.processed),
        ap (λ d. d.block) run.database ∙ stored_all-block W S abi cache node ks c.processor.db,
        λ k.
            ap (λ d. find_row transaction_key k d.transaction) run.database
            ∙ find_row-stored_all W S abi cache node ks k c.processor.db known
            ∙ ap
                (λ b.
                  or_else (find_row transaction_key k c.processor.db.transaction)
                    (only_if b (row_of W S abi cache node k)))
                (contains-perm k ks hs q),
        λ j.
            ap (λ d. has_key log_key j d.transaction_logs) run.database
            ∙ has_key-stored_all W S abi cache node ks j c.processor.db known
            ∙ ap (λ b. has_key log_key j c.processor.db.transaction_logs || b)
                (has_key-log_rows_perm W S abi cache node j ks hs q),
        (
          internal_rows W S abi cache node ks,
          flat_map-perm (traced_rows W S abi cache node) ks hs q,
          ap (λ d. d.internal_transaction) run.database
              ∙ stored_all-internal W S abi cache node ks c.processor.db,
        ),
      )

  module _ (T : Topic) (L : IsReliable T) where
    -- What the producer has left: the rows of the blocks, and their messages in the topic.
    producer_writes :
        (bs : List (BlockData × ℕ)) (fuel i e : ℕ) (s s' : State W.Float T.State)
        → L.Good s.topic
        → Serves W T L full true e i bs
        → StopsAt W T L full true e (i + length bs)
        → length bs < fuel
        → start_producer W T fuel true
            (record { mode = full; start_block = some i; end_block = some e })
            s
          ≡ some (ok tt, s')
        → (s'.db ≡ record (s.db) { block = write_blocks bs s.db.block })
          × (L.messages s'.topic ≡ L.messages s.topic ++ encode_all full (block_hashes bs))
    producer_writes bs fuel i e s s' good serves stops enough ran =
        let (s1, ran1, blocks, sent, last, g) =
          start_producer_writes W T L full true e bs fuel i s good serves stops enough in
        let same : s1 ≡ s' = cc (ran, ran1) in
        (
          sym (ap (λ t. t.db) same) ∙ blocks,
          sym (ap (λ t. L.messages t.topic) same)
              ∙ sent
              ∙ ap (λ ms. L.messages s.topic ++ ms) (block_messages-encode_all full bs),
        )

    -- A producer task of the mode full with a configured range, over an empty reliable topic and
    -- a node that serves some blocks and then stops, followed by a consumer on the same database
    -- that gets the messages of the topic, each once and in any order: if the hashes have no
    -- separator, and the node answers for each of them with all that storing needs, the consumer
    -- ends with the exit code 0 and has consumed and processed as many messages as the blocks
    -- have transactions; the blocks are stored, and the transaction table has at each hash the
    -- row that was there before or else, for a transaction of the blocks, the row of the node's
    -- answer, and none at any other hash; the keys in the table of logs are those that were
    -- there and those of the logs in these answers; and the table of internal transactions gets
    -- exactly those of these answers, in some order.
    pub producer_task-start_consuming_data :
        (bs : List (BlockData × ℕ)) (fuel i e : ℕ) (logs : Result (List Str))
        (s s' : State W.Float T.State) (es : List Event) (c : DataConsumer W S abi cache)
        → L.Good s.topic
        → L.messages s.topic ≡ []
        → Serves W T L full true e i bs
        → StopsAt W T L full true e (i + length bs)
        → length bs < fuel
        → producer_task W T fuel logs
            (record { mode = full; start_block = some i; end_block = some e })
            s
          ≡ some (ok tt, s')
        → c.processor.db ≡ s'.db
        → Perm (map (λ (e : Event). e.value) es) (L.messages s'.topic)
        → ((h : Str) → contains (block_hashes bs) h ≡ true → IsReadable W (node h) h)
        → let (code, c') = start_consuming_data W S abi cache es c in
          (code ≡ 0)
          × (c'.n_consumed_txs ≡ c.n_consumed_txs + length (block_hashes bs))
          × (c'.n_processed_txs ≡ c.n_processed_txs + length (block_hashes bs))
          × (c'.processor.db.block ≡ write_blocks bs s.db.block)
          × ((k : Str)
              → find_row transaction_key k c'.processor.db.transaction
                ≡ or_else
                    (find_row transaction_key k s.db.transaction)
                    (only_if (contains (block_hashes bs) k) (row_of W S abi cache node k)))
          × ((q : Str × ℕ)
              → has_key log_key q c'.processor.db.transaction_logs ≡ (
                  has_key log_key q s.db.transaction_logs
                  || has_key log_key q (log_rows W S abi cache node (block_hashes bs))))
          × ((rows : List (InternalRow W.Float)) × Perm rows
                (internal_rows W S abi cache node (block_hashes bs))
              × (c'.processor.db.internal_transaction ≡ s.db.internal_transaction ++ rows))
    unfolding producer_task
    producer_task-start_consuming_data bs fuel i e logs s s' es c good fresh serves stops enough ran
          shared received readable =
        let (db, sent) = producer_writes bs fuel i e s s' good serves stops enough ran in
        let all = sent ∙ ap (λ ms. ms ++ encode_all full (block_hashes bs)) fresh in
        let db_c = shared ∙ db in
        let (code, consumed, processed, blocks, rows, logged, (inner, each, internal)) =
          consumer_stores (block_hashes bs) es c (rw (sym all) received) readable in
        (
          code,
          consumed,
          processed,
          blocks ∙ ap (λ d. d.block) db_c,
          λ k.
              rows k
              ∙ ap
                  (λ d.
                    or_else (find_row transaction_key k d.transaction)
                      (only_if (contains (block_hashes bs) k) (row_of W S abi cache node k)))
                  db_c,
          λ q.
              logged q
              ∙ ap
                  (λ d.
                    has_key log_key q d.transaction_logs
                    || has_key log_key q (log_rows W S abi cache node (block_hashes bs)))
                  db_c,
          (inner, each, internal ∙ ap (λ d. d.internal_transaction ++ inner) db_c),
        )
