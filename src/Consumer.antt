-- ===== src/Consumer.antt =====
-- app/consumer/__init__.py: `DataConsumer`, and the listening loop of `KafkaConsumerManager`.
pub mod Contracts
pub mod Counters
pub mod Ends
pub mod LogFilter
pub mod Timeout
use uzh_blockchain_data_coll.Base.{
  ℕ, zero, suc, ◌+◌, Option, none, some, Bool, true, false, List, [], ◌∷◌,
}
use uzh_blockchain_data_coll.Base.Text.{Str}
use uzh_blockchain_data_coll.Errors.{
  Exc, M, Result, ok, err, ◌>>=◌, ◌>>◌, pure, raise, lift, modify, partitions_empty,
}
use uzh_blockchain_data_coll.Model.{Mode}
use uzh_blockchain_data_coll.World.{World}
use uzh_blockchain_data_coll.Collector.{decode_kafka_event}
use uzh_blockchain_data_coll.Parser.{ConfigCache, ContractAbi}
use uzh_blockchain_data_coll.Redis.{SortedSet, decr_transactions}
use uzh_blockchain_data_coll.Processor.State.{State}
use uzh_blockchain_data_coll.Processor.Modes.{tx_processor}

-- A Kafka event: the partition that it comes from, and its decoded value.
pub record Event : Type 0 where
  pub partition : ℕ
  pub value : Str

pub record Consumer (F C R : Type 0) : Type 0 where
  pub processor : State F C
  pub redis : R
  pub tx_hash : Option Str
  pub n_consumed_txs : ℕ
  pub n_processed_txs : ℕ

abbrev pub as_number : Bool → ℕ
as_number true = 1
as_number false = 0

-- The exit code that `start_consuming_data` returns for the end of a run.
unfoldable pub exit_code_of : Result (Unit {0}) → ℕ
exit_code_of (ok u) = 0
exit_code_of (err partitions_empty) = 0
exit_code_of (err e) = 1

module _ (W : World) (S : SortedSet) (abi : ContractAbi W.Abi) (cache : ConfigCache) where
  abbrev pub DataConsumer : Type 0
  DataConsumer = Consumer W.Float W.Contract S.State

  abbrev pub on_processor : {A : Type 0} → M (State W.Float W.Contract) A → M DataConsumer A
  on_processor m c = let (r, s) = m c.processor in (r, record c { processor = s })

  -- `_on_kafka_event`
  unfoldable pub on_kafka_event : Event → M DataConsumer (Unit {0})
  on_kafka_event event = lift (decode_kafka_event event.value) >>= λ (mode, hash).
      (modify (λ c. record c { tx_hash = some hash; n_consumed_txs = c.n_consumed_txs + 1 })
        >> (lift (W.get_transaction hash) >>= λ tx.
            (lift (W.get_transaction_receipt hash) >>= λ (receipt_data, receipt).
            (on_processor (tx_processor W abi cache mode tx receipt_data receipt) >>= λ processed.
            modify (λ c. record c { n_processed_txs = c.n_processed_txs + as_number processed })))))

  -- The body of the loop in `_start_listening_on_topic_task`. (The two asyncio events only wake the
  -- timeout task.)
  unfoldable pub handle_message : Event → M DataConsumer (Unit {0})
  handle_message event =
      modify (λ c. record c { redis = decr_transactions S event.partition c.redis })
      >> on_kafka_event event

  -- `start_consuming` on the events that arrive in time: behind the last one the timeout task
  -- raises, and an exception of the callback ends the loop at once.
  unfoldable pub start_consuming : List Event → M DataConsumer (Unit {0})
  start_consuming [] = raise partitions_empty
  start_consuming (event ∷ events) = handle_message event >> start_consuming events

  -- `start_consuming_data`
  unfoldable pub start_consuming_data : List Event → DataConsumer → ℕ × DataConsumer
  unfolding exit_code_of
  start_consuming_data events c = let (r, c') = start_consuming events c in (exit_code_of r, c')
