-- ===== src/Main/ExitCode.antt =====
-- When a worker ends with the exit code 0, and which texts name a worker type.
use uzh_blockchain_data_coll.Base.{
  ℕ, false, List, [], ◌∷◌, ◌≡◌, ◌⊎◌, ◌↔◌, inl, inr, refl, arith, All, list_eq, nat_eq, Bool-cases,
  if◌then◌else◌,
}
use uzh_blockchain_data_coll.Base.Text.{Str}
use uzh_blockchain_data_coll.Errors.{Result, ok, err, Result-cases, partitions_empty}
use uzh_blockchain_data_coll.Model.{WorkerType, producer, consumer}
use uzh_blockchain_data_coll.Consumer.{exit_code_of}
use uzh_blockchain_data_coll.Producer.ExitCode.{HasReturned, exit_code_zero}
use uzh_blockchain_data_coll.Main.{
  ConsumerTask, ProducerRun, gather_codes, any_code, start, worker_type_of, worker_value,
  enum_action, member_of,
}

-- The run of a consumer has ended for want of messages (or has returned).
abbrev pub HasRunDry : ConsumerTask → Type 0
HasRunDry task = (task ≡ ok (ok tt)) ⊎ (task ≡ ok (err partitions_empty))

zero-HasRunDry : (run : Result (Unit {0})) → exit_code_of run ≡ 0 → HasRunDry (ok run)
unfolding exit_code_of
zero-HasRunDry (ok u) h = inl refl
zero-HasRunDry (err partitions_empty) h = inr refl
zero-HasRunDry (err e) h = cc

HasRunDry-zero : (run : Result (Unit {0})) → HasRunDry (ok run) → exit_code_of run ≡ 0
unfolding exit_code_of
HasRunDry-zero run h = ground (arith, h)

-- The code that a worker ends with when all codes of its tasks are known.
abbrev code_of : List ℕ → ℕ
code_of codes = if any_code codes then 1 else 0

consumers-HasRunDry :
    (tasks : List ConsumerTask) (codes : List ℕ)
    → gather_codes tasks ≡ ok codes
    → any_code codes ≡ false
    → All HasRunDry tasks
unfolding gather_codes
consumers-HasRunDry [] codes h none_set = tt
consumers-HasRunDry (err e ∷ tasks) codes h none_set = cc
consumers-HasRunDry (ok run ∷ tasks) codes h none_set = elim (Result-cases (gather_codes tasks)) [
  | inl (rest, e) ↦
      let all : codes ≡ exit_code_of run ∷ rest = ground (arith, e, h) in
      (
        zero-HasRunDry run (ground (arith, all, none_set)),
        consumers-HasRunDry tasks rest e (ground (arith, all, none_set)),
      )
  | inr (x, e) ↦ absurd (ground (arith, e, h))
]

HasRunDry-consumers :
    (tasks : List ConsumerTask)
    → All HasRunDry tasks
    → (codes : List ℕ) × (gather_codes tasks ≡ ok codes) × (any_code codes ≡ false)
unfolding gather_codes
HasRunDry-consumers [] all = ([], refl, refl)
HasRunDry-consumers (err e ∷ tasks) (dry, all) = absurd (ground (arith, dry))
HasRunDry-consumers (ok run ∷ tasks) (dry, all) =
    let (codes, e, none_set) = HasRunDry-consumers tasks all in
    let zero_code = HasRunDry-zero run dry in
    (exit_code_of run ∷ codes, ground (arith, e), ground (arith, zero_code, none_set))

-- The worker has opened and closed what it needs, and its tasks have ended as they should.
abbrev pub AllEnded : WorkerType → Result (Unit {0}) → List ConsumerTask → ProducerRun → Type 0
AllEnded producer abis consumers (err e) = ⊥
AllEnded producer abis consumers (ok tasks) = All HasReturned tasks
AllEnded consumer abis consumers run = (abis ≡ ok tt) × All HasRunDry consumers

consumer_zero :
    (consumers : List ConsumerTask) (run : ProducerRun)
    → start consumer (ok tt) consumers run ≡ ok 0
    → All HasRunDry consumers
unfolding start
consumer_zero consumers run h = elim (Result-cases (gather_codes consumers)) [
  | inl (codes, e) ↦ elim (Bool-cases (any_code codes)) [
    | inl some_set ↦ absurd (ground (arith, e, h, some_set))
    | inr none_set ↦ consumers-HasRunDry consumers codes e none_set
  ]
  | inr (x, e) ↦ absurd (ground (arith, e, h))
]

-- The program ends with the exit code 0 exactly in these cases: for a producer, opening and
-- closing it has not raised, and all of its tasks have returned; for a consumer, loading the
-- ABIs has not raised, and all of its tasks were opened and closed without an exception and
-- their runs have ended for want of messages or have returned.
pub start_zero :
    (worker : WorkerType) (abis : Result (Unit {0})) (consumers : List ConsumerTask)
    (run : ProducerRun)
    → start worker abis consumers run ≡ ok 0 ↔ AllEnded worker abis consumers run
unfolding start
start_zero producer abis consumers (ok tasks) = exit_code_zero tasks
start_zero producer abis consumers (err e) = (λ h. cc, λ h. absurd h)
start_zero consumer (err e) consumers run = (λ h. cc, λ h. absurd (ground (arith, h)))
start_zero consumer (ok u) consumers run = (
  λ h. (refl, consumer_zero consumers run h),
  λ (fine, all).
      let (codes, e, none_set) = HasRunDry-consumers consumers all in ground (arith, e, none_set),
)

worker_type_of_value : (w : WorkerType) → worker_type_of (worker_value w) ≡ ok w
unfolding worker_type_of enum_action member_of worker_value list_eq nat_eq
worker_type_of_value producer = refl
worker_type_of_value consumer = refl

-- The argument for the worker type is read as a worker type exactly if it is this type's value.
pub worker_type_of-worker_value :
    (s : Str) (w : WorkerType) → worker_type_of s ≡ ok w ↔ (s ≡ worker_value w)
unfolding worker_type_of enum_action member_of worker_value
worker_type_of-worker_value s producer =
    (λ h. ground (arith, h), λ h. rw h (worker_type_of_value producer))
worker_type_of-worker_value s consumer =
    (λ h. ground (arith, h), λ h. rw h (worker_type_of_value consumer))
