-- ===== src/Pipeline/Consumed.antt =====
-- A consumer on messages of the mode full: what a whole run stores and counts.
use uzh_blockchain_data_coll.Base.{
  ◌+◌, Option, some, true, false, List, [], ◌∷◌, ◌==◌, map, contains, length, All, list_eq, nat_eq,
  ◌≡◌, refl, ap, ◌∙◌, arith, eq_self,
}
use uzh_blockchain_data_coll.Base.Text.{Str}
use uzh_blockchain_data_coll.Errors.{ok, err, partitions_empty}
use uzh_blockchain_data_coll.Model.{full}
use uzh_blockchain_data_coll.Model.Rows.{
  TransactionData, TransactionReceiptData, TransactionLogsData, InternalTransactionData,
}
use uzh_blockchain_data_coll.World.{World}
use uzh_blockchain_data_coll.Collector.{encode_kafka_event, decode_kafka_event, separator}
use uzh_blockchain_data_coll.Collector.Codec.{decode-encode}
use uzh_blockchain_data_coll.Db.Tables.{Db, TransactionRow, transaction_key}
use uzh_blockchain_data_coll.Db.Lookup.{find_row, find_row-insert_row, or_else, only_if}
use uzh_blockchain_data_coll.Node.{get_internal_transactions}
use uzh_blockchain_data_coll.Parser.{ConfigCache, ContractAbi}
use uzh_blockchain_data_coll.Redis.{SortedSet, decr_transactions}
use uzh_blockchain_data_coll.Processor.Full.{HasKey, saved_row, process_full_saves}
use uzh_blockchain_data_coll.Processor.Interaction.{with_transaction}
use uzh_blockchain_data_coll.Processor.Modes.{tx_processor}
use uzh_blockchain_data_coll.Consumer.{
  Event, DataConsumer, on_kafka_event, handle_message, start_consuming,
}
use uzh_blockchain_data_coll.Consumer.Ends.{start_consuming-next}
use uzh_blockchain_data_coll.Producer.{encode_all}

-- What a node answers about a transaction: its data and receipt, and in them the gas price, the gas
-- used, the logs and the internal transactions.
pub record Answer (F X : Type 0) : Type 0 where
  pub tx : TransactionData F
  pub receipt_data : TransactionReceiptData F
  pub receipt : X
  pub price : F
  pub used : F
  pub logs : List TransactionLogsData
  pub internal : List (InternalTransactionData F)

-- The node gives this answer for the hash h.
pub record IsServed (W : World) (h : Str) (n : Answer W.Float W.Receipt) : Type 0 where
  pub found : W.get_transaction h ≡ ok n.tx
  pub received : W.get_transaction_receipt h ≡ ok (n.receipt_data, n.receipt)
  pub hash : n.tx.transaction_hash ≡ some h
  pub priced : n.tx.gas_price ≡ some n.price
  pub gas : n.receipt_data.gas_used ≡ some n.used
  pub logged : n.receipt_data.logs ≡ some n.logs
  pub keys : All HasKey n.logs
  pub traced : get_internal_transactions W n.tx.transaction_hash ≡ ok n.internal

-- A hash that goes through a message unchanged, and is served.
abbrev pub IsReadable : (W : World) → Answer W.Float W.Receipt → Str → Type 0
IsReadable W n h = (contains h separator ≡ false) × IsServed W h n

module _ (W : World) (S : SortedSet) (abi : ContractAbi W.Abi) (cache : ConfigCache)
    (node : Str → Answer W.Float W.Receipt) where
  -- The row of the transaction with this hash.
  abbrev pub row_of : Str → TransactionRow W.Float
  row_of h = let n = node h in saved_row W abi cache n.tx n.receipt_data (W.mul n.price n.used)

  abbrev pub stored : Str → Db W.Float → Db W.Float
  stored h =
      let n = node h in
      with_transaction W abi cache n.tx n.receipt_data (W.mul n.price n.used) n.logs n.internal

  -- The database after the transactions with these hashes, in order.
  unfoldable pub stored_all : List Str → Db W.Float → Db W.Float
  stored_all [] d = d
  stored_all (h ∷ hs) d = stored_all hs (stored h d)

  abbrev handled : Event → Str → DataConsumer W S abi cache → DataConsumer W S abi cache
  handled e h c = record c {
    processor = record (c.processor) { db = stored h c.processor.db };
    redis = decr_transactions S e.partition c.redis;
    tx_hash = some h;
    n_consumed_txs = c.n_consumed_txs + 1;
    n_processed_txs = c.n_processed_txs + 1;
  }

  handle_message-full :
      (e : Event) (h : Str) (c : DataConsumer W S abi cache)
      → e.value ≡ encode_kafka_event h full
      → IsReadable W (node h) h
      → handle_message W S abi cache e c ≡ (ok tt, handled e h c)
  unfolding handle_message on_kafka_event tx_processor
  handle_message-full e h c encoded (plain, s) =
      let n = node h in
      ground (
        arith,
        ap decode_kafka_event encoded ∙ decode-encode h full plain,
        s.found,
        s.received,
        process_full_saves W abi cache n.tx n.receipt_data n.receipt h n.price n.used n.logs
            n.internal c.processor s.hash s.priced s.gas s.logged s.keys s.traced,
      )

  -- What a run over messages with these hashes leaves behind.
  pub record Consumed (es : List Event) (hs : List Str) (c : DataConsumer W S abi cache)
      : Type 0 where
    pub final : DataConsumer W S abi cache
    pub ends : start_consuming W S abi cache es c ≡ (err partitions_empty, final)
    pub consumed : final.n_consumed_txs ≡ c.n_consumed_txs + length hs
    pub processed : final.n_processed_txs ≡ c.n_processed_txs + length hs
    pub database : final.processor.db ≡ stored_all hs c.processor.db

  -- Every message is handled and counted, and the run ends for want of messages.
  pub start_consuming-full :
      (es : List Event) (hs : List Str) (c : DataConsumer W S abi cache)
      → map (λ (e : Event). e.value) es ≡ encode_all full hs
      → ((h : Str) → contains hs h ≡ true → IsReadable W (node h) h)
      → Consumed es hs c
  unfolding start_consuming stored_all
  start_consuming-full [] [] c encoded readable = record {
    final = c;
    ends = refl;
    consumed = omega arith;
    processed = omega arith;
    database = refl;
  }
  start_consuming-full [] (h ∷ hs) c encoded readable = absurd (ground arith)
  start_consuming-full (e ∷ es) [] c encoded readable = absurd (ground arith)
  start_consuming-full (e ∷ es) (h ∷ hs) c encoded readable =
      let first : contains (h ∷ hs) h ≡ true = ground (arith, eq_self h) in
      let one = handle_message-full e h c (ground arith) (readable h first) in
      let rest =
        start_consuming-full es hs (handled e h c) (ground arith)
          (λ k there. readable k (ground arith)) in
      record {
        final = rest.final;
        ends = start_consuming-next W S abi cache e es c (handled e h c) one ∙ rest.ends;
        consumed = omega (arith, rest.consumed);
        processed = omega (arith, rest.processed);
        database = rest.database;
      }

  pub stored_all-block : (hs : List Str) (d : Db W.Float) → (stored_all hs d).block ≡ d.block
  unfolding stored_all
  stored_all-block [] d = refl
  stored_all-block (h ∷ hs) d = stored_all-block hs (stored h d)

  or_else-step :
      (o : Option (TransactionRow W.Float)) (k h : Str) (hs : List Str)
      → or_else (or_else o (only_if (k == h) (row_of h))) (only_if (contains hs k) (row_of k))
        ≡ or_else o (only_if (contains (h ∷ hs) k) (row_of k))
  or_else-step o k h hs = ground arith

  -- The transaction table afterwards: a row that was there stays, and every transaction of the
  -- list has one.
  pub find_row-stored_all :
      (hs : List Str) (k : Str) (d : Db W.Float)
      → ((h : Str) → contains hs h ≡ true → IsReadable W (node h) h)
      → find_row transaction_key k (stored_all hs d).transaction
        ≡ or_else (find_row transaction_key k d.transaction) (only_if (contains hs k) (row_of k))
  unfolding stored_all
  find_row-stored_all [] k d readable = ground arith
  find_row-stored_all (h ∷ hs) k d readable =
      let first : contains (h ∷ hs) h ≡ true = ground (arith, eq_self h) in
      find_row-stored_all hs k (stored h d) (λ j there. readable j (ground arith))
      ∙ ap (λ o. or_else o (only_if (contains hs k) (row_of k)))
          (find_row-insert_row transaction_key h k d.transaction (row_of h)
            ((readable h first).1.hash))
      ∙ or_else-step (find_row transaction_key k d.transaction) k h hs
