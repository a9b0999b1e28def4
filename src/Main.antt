-- ===== src/Main.antt =====
-- app/main.py: the worker type of the command line (with utils/enum_action.py) and the exit code.
pub mod ExitCode
use uzh_blockchain_data_coll.Base.{
  ℕ, Option, none, some, Bool, true, false, List, [], ◌∷◌, map, ◌||◌, not, ◌==◌, list_eq, nat_eq,
  contains, if◌then◌else◌,
}
use uzh_blockchain_data_coll.Base.Text.{Str, str}
use uzh_blockchain_data_coll.Errors.{Exc, Result, ok, err, value_error, other}
use uzh_blockchain_data_coll.Model.{WorkerType, producer, consumer}
use uzh_blockchain_data_coll.Consumer.{exit_code_of}
use uzh_blockchain_data_coll.Producer.{exit_code}

-- `worker_type.value`
unfoldable pub worker_value : WorkerType → Str
worker_value producer = str "producer"
worker_value consumer = str "consumer"

module _ {E : Type 0} (members : List E) (value : E → Str) where
  -- `tuple(e.value for e in enum_type)`
  abbrev pub choices : List Str
  choices = map value members

  -- `self._enum(values)`: the first member with this value.
  unfoldable pub member_of : List E → Str → Result E
  member_of [] s = err value_error
  member_of (e ∷ es) s = let rest = member_of es s in if s == value e then ok e else rest

  -- `EnumAction.__call__`, which argparse calls for one of the choices only. For other texts it
  -- ends the program, here an exception.
  unfoldable pub enum_action : Str → Result E
  unfolding member_of
  enum_action s = if contains choices s then member_of members s else err (other 2)

abbrev pub worker_types : List WorkerType
worker_types = producer ∷ consumer ∷ []

-- The argument `--worker-type`.
unfoldable pub worker_type_of : Str → Result WorkerType
unfolding enum_action worker_value
worker_type_of s = enum_action worker_types worker_value s

-- How one of the tasks `start_consumer` ends: opening or closing the `DataConsumer` raises, or
-- `start_consuming_data` returns the exit code of its run.
abbrev pub ConsumerTask : Type 0
ConsumerTask = Result (Result (Unit {0}))

-- `asyncio.gather`, of the tasks in the order in which they end: an exception goes on at once.
unfoldable pub gather_codes : List ConsumerTask → Result (List ℕ)
gather_codes [] = ok []
gather_codes (err e ∷ tasks) = err e
gather_codes (ok run ∷ tasks) = elim (gather_codes tasks) [
  | err e ↦ err e
  | ok codes ↦ ok (exit_code_of run ∷ codes)
]

-- `any(result)`
abbrev pub any_code : List ℕ → Bool
any_code [] = false
any_code (c ∷ cs) = not (c == 0) || any_code cs

-- How a producer ends: opening or closing the `DataProducer` raises, or its tasks have ended, each
-- with the number of the contracts of its configuration.
abbrev pub ProducerRun : Type 0
ProducerRun = Result (List (Result (Unit {0}) × Option ℕ))

-- `start`: the argument of `sys.exit`, from what loading the ABIs and the consumer tasks come to,
-- and from the run of the producer.
unfoldable pub start : WorkerType → Result (Unit {0}) → List ConsumerTask → ProducerRun → Result ℕ
unfolding gather_codes
start consumer (err e) consumers run = err e
start consumer (ok u) consumers run = elim (gather_codes consumers) [
  | err e ↦ err e
  | ok codes ↦ ok (if any_code codes then 1 else 0)
]
start producer abis consumers (err e) = err e
start producer abis consumers (ok tasks) = exit_code tasks 0
