-- ===== src/Producer.antt =====
-- app/producer.py: `DataProducer`, over any topic that messages are sent to.
pub mod Blocks
pub mod Ends
pub mod ExitCode
pub mod Messages
use uzh_blockchain_data_coll.Base.{
  ◌≡◌, ◌++◌, ℕ, zero, suc, ◌+◌, Option, none, some, Bool, true, false, List, [], ◌∷◌, map, leb,
  if◌then◌else◌,
}
use uzh_blockchain_data_coll.Base.Text.{Str}
use uzh_blockchain_data_coll.Errors.{
  Exc, M, Result, ok, err, ◌>>=◌, ◌>>◌, pure, raise, lift, modify, type_error, not_implemented,
  block_not_found,
}
use uzh_blockchain_data_coll.Model.{Mode, full, partial, log_filter, get_logs}
use uzh_blockchain_data_coll.Model.Rows.{BlockData}
use uzh_blockchain_data_coll.World.{World}
use uzh_blockchain_data_coll.Collector.{encode_kafka_event}
use uzh_blockchain_data_coll.Node.{get_block_reward}
use uzh_blockchain_data_coll.Db.{insert_block}
use uzh_blockchain_data_coll.Db.Tables.{Db, BlockRow}
use uzh_blockchain_data_coll.Explorer.{ExplorationBounds, get_exploration_bounds}

-- The Kafka manager as the producer sees it. What `send_batch` returns is not used. The wait of
-- its decorator is the subject of Kafka/Capacity, and a call here stands behind it.
pub record Topic : Type 1 where
  pub State : Type 0
  pub send_batch : List Str → M State (Unit {0})

-- What a client may rely on: a good topic takes every list of messages, appends it to those that
-- it holds and stays good.
pub record IsReliable (T : Topic) : Type 1 where
  pub Good : T.State → Type 0
  pub messages : T.State → List Str
  pub send :
      (msgs : List Str) (k : T.State)
      → Good k
      → (k' : T.State) × (T.send_batch msgs k ≡ (ok tt, k'))
        × Good k'
        × (messages k' ≡ messages k ++ msgs)

-- app/config.py, the fields of `DataCollectionConfig` that the producer reads.
pub record ProducerConfig : Type 0 where
  pub mode : Mode
  pub start_block : Option ℕ
  pub end_block : Option ℕ

pub record State (F K : Type 0) : Type 0 where
  pub db : Db F
  pub topic : K
  pub i_processed_block : Option ℕ

module _ {F K A : Type 0} where
  abbrev pub on_db : M (Db F) A → M (State F K) A
  on_db m s = let (r, d) = m s.db in (r, record s { db = d })

  abbrev pub on_topic : M K A → M (State F K) A
  on_topic m s = let (r, k) = m s.topic in (r, record s { topic = k })

-- `should_continue`
unfoldable pub should_continue : Option ℕ → ℕ → Bool
should_continue none i = true
should_continue (some e) i = leb i e

-- app/utils/__init__.py, `log_producer_progress`: all that is not output is the subtraction
-- `end_block - start_block`, a `TypeError` for `None`.
unfoldable pub log_producer_progress : Option ℕ → Result (Unit {0})
log_producer_progress none = err type_error
log_producer_progress (some e) = ok tt

-- `_insert_block`
abbrev pub block_row : BlockData → ℕ → BlockRow
block_row d reward = record {
  block_number = d.block_number;
  block_hash = d.block_hash;
  nonce = d.nonce;
  difficulty = d.difficulty;
  gas_limit = d.gas_limit;
  gas_used = d.gas_used;
  timestamp = d.timestamp;
  miner = d.miner;
  parent_hash = d.parent_hash;
  block_reward = reward;
  uncles = d.uncles;
}

abbrev pub encode_all : Mode → List Str → List Str
encode_all mode = map (λ h. encode_kafka_event h mode)

module _ (W : World) (T : Topic) where
  abbrev pub Action : Type 0 → Type 0
  Action A = M (State W.Float T.State) A

  -- `if block_data.transactions`
  unfoldable pub send_transactions : Mode → List Str → Action (Unit {0})
  send_transactions mode [] = pure tt
  send_transactions mode (h ∷ hs) = on_topic (T.send_batch (encode_all mode (h ∷ hs)))

  unfoldable pub block_reward_of : Bool → ℕ → Result ℕ
  block_reward_of true i = get_block_reward W i
  block_reward_of false i = ok 0

  -- The body of the `while` loop for block i.
  unfoldable pub produce_block : Mode → Bool → Option ℕ → ℕ → Action (Unit {0})
  unfolding send_transactions
  produce_block mode reward end_block i = do
    block_data ← lift (W.get_block i)
    block_reward ← lift (block_reward_of reward i)
    on_db (insert_block (block_row block_data block_reward))
    send_transactions mode block_data.transactions
    modify (λ s. record s { i_processed_block = some i })
    lift (log_producer_progress end_block)

  -- The `while` loop from block i, with fuel; `none` if it runs out.
  unfoldable pub produce_loop :
      Mode
      → Bool
      → Option ℕ
      → ℕ
      → ℕ
      → State W.Float T.State
      → Option (Result (Unit {0}) × State W.Float T.State)
  unfolding produce_block
  produce_loop mode reward end_block zero i s = none
  produce_loop mode reward end_block (suc fuel) i s = elim (should_continue end_block i) [
    | false ↦ some (ok tt, s)
    | true ↦
        let (r, s') = produce_block mode reward end_block i s in
        elim r [
          | ok u ↦ produce_loop mode reward end_block fuel (i + 1) s'
          | err e ↦ some (err e, s')
        ]
  ]

  -- `except BlockNotFound`; the `finally` only logs.
  abbrev pub catch_block_not_found :
      Option (Result (Unit {0}) × State W.Float T.State)
      → Option (Result (Unit {0}) × State W.Float T.State)
  catch_block_not_found (some (err block_not_found, s)) = some (ok tt, s)
  catch_block_not_found o = o

  -- `_start_producer`. The bounds are computed before the `try`.
  unfoldable pub start_producer :
      ℕ
      → Bool
      → ProducerConfig
      → State W.Float T.State
      → Option (Result (Unit {0}) × State W.Float T.State)
  unfolding produce_loop
  start_producer fuel reward cfg s =
      let (r, s') = on_db (get_exploration_bounds W cfg.start_block cfg.end_block) s in
      elim r [
        | err e ↦ some (err e, s')
        | ok bounds ↦ catch_block_not_found (
            produce_loop cfg.mode reward bounds.end_block fuel bounds.start_block
              (record s' { i_processed_block = none }))
      ]

  -- `_start_get_logs_producer`, on the transaction hashes of the logs that the node returns.
  unfoldable pub start_get_logs_producer : Result (List Str) → ProducerConfig → Action (Unit {0})
  unfolding send_transactions
  start_get_logs_producer logs cfg = lift logs >>= send_transactions cfg.mode

  -- `_start_logfilter_producer`
  abbrev pub start_logfilter_producer : ProducerConfig → Action (Unit {0})
  start_logfilter_producer cfg = raise not_implemented

  -- The task that `_start_producer_task` creates, by mode.
  unfoldable pub producer_task :
      ℕ
      → Result (List Str)
      → ProducerConfig
      → State W.Float T.State
      → Option (Result (Unit {0}) × State W.Float T.State)
  unfolding start_producer start_get_logs_producer
  producer_task fuel logs cfg s = elim cfg.mode [
    | full ↦ start_producer fuel true cfg s
    | partial ↦ start_producer fuel false cfg s
    | log_filter ↦ some (start_logfilter_producer cfg s)
    | get_logs ↦ some (start_get_logs_producer logs cfg s)
  ]

-- The exit code of `start_producing_data`, from the outcomes of the tasks and the number of
-- contracts of each configuration: the error message takes `len(cfg.contracts)`, which is a
-- `TypeError` if there is no list.
unfoldable pub exit_code : List (Result (Unit {0}) × Option ℕ) → ℕ → Result ℕ
exit_code [] code = ok code
exit_code ((ok u, contracts) ∷ rs) code = exit_code rs code
exit_code ((err e, none) ∷ rs) code = err type_error
exit_code ((err e, some n) ∷ rs) code = exit_code rs 1
