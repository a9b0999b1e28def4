-- ===== src/Consumer/LogFilter.antt =====
-- What a consumer does with a message of the mode log_filter.
use uzh_blockchain_data_coll.Base.{◌+◌, some, List, ◌∷◌, ◌≡◌, refl, arith}
use uzh_blockchain_data_coll.Base.Text.{Str}
use uzh_blockchain_data_coll.Errors.{ok, err, not_implemented}
use uzh_blockchain_data_coll.Model.{log_filter}
use uzh_blockchain_data_coll.Model.Rows.{TransactionData, TransactionReceiptData}
use uzh_blockchain_data_coll.World.{World}
use uzh_blockchain_data_coll.Collector.{decode_kafka_event}
use uzh_blockchain_data_coll.Parser.{ConfigCache, ContractAbi}
use uzh_blockchain_data_coll.Redis.{SortedSet, decr_transactions}
use uzh_blockchain_data_coll.Processor.Modes.{tx_processor, process_log_filter}
use uzh_blockchain_data_coll.Consumer.Ends.{start_consuming-raised}
use uzh_blockchain_data_coll.Consumer.{
  Event, DataConsumer, on_kafka_event, handle_message, start_consuming_data, exit_code_of,
}

module _ (W : World) (S : SortedSet) (abi : ContractAbi W.Abi) (cache : ConfigCache) where
  -- The state that such a message leaves behind.
  noted : Event → Str → DataConsumer W S abi cache → DataConsumer W S abi cache
  noted e h c = record c {
    redis = decr_transactions S e.partition c.redis;
    tx_hash = some h;
    n_consumed_txs = c.n_consumed_txs + 1;
  }

  handle_message-log_filter :
      (e : Event) (c : DataConsumer W S abi cache) (h : Str) (tx : TransactionData W.Float)
      (receipt_data : TransactionReceiptData W.Float) (receipt : W.Receipt)
      → decode_kafka_event e.value ≡ ok (log_filter, h)
      → W.get_transaction h ≡ ok tx
      → W.get_transaction_receipt h ≡ ok (receipt_data, receipt)
      → handle_message W S abi cache e c ≡ (err not_implemented, noted e h c)
  unfolding handle_message on_kafka_event tx_processor process_log_filter noted
  handle_message-log_filter e c h tx receipt_data receipt decoded found received = ground arith

  -- A message of the mode log_filter whose transaction and receipt the node returns ends the
  -- whole run with the exit code 1: it counts as consumed and not as processed, and nothing is
  -- stored.
  pub start_consuming_data-log_filter :
      (e : Event) (es : List Event) (c : DataConsumer W S abi cache) (h : Str)
      (tx : TransactionData W.Float) (receipt_data : TransactionReceiptData W.Float)
      (receipt : W.Receipt)
      → decode_kafka_event e.value ≡ ok (log_filter, h)
      → W.get_transaction h ≡ ok tx
      → W.get_transaction_receipt h ≡ ok (receipt_data, receipt)
      → let (code, c') = start_consuming_data W S abi cache (e ∷ es) c in
        (code ≡ 1)
        × (c'.processor ≡ c.processor)
        × (c'.n_consumed_txs ≡ c.n_consumed_txs + 1)
        × (c'.n_processed_txs ≡ c.n_processed_txs)
  unfolding start_consuming_data exit_code_of noted
  start_consuming_data-log_filter e es c h tx receipt_data receipt decoded found received =
      let one = handle_message-log_filter e c h tx receipt_data receipt decoded found received in
      rw (start_consuming-raised W S abi cache e es c (noted e h c) not_implemented one)
        (refl, refl, refl, refl)
