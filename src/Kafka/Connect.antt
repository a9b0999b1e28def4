-- ===== src/Kafka/Connect.antt =====
-- `KafkaManager.connect`: the cluster is tried a bounded number of times.
use uzh_blockchain_data_coll.Base.{
  ap, ap₂, ◌∙◌, ℕ, zero, suc, ◌+◌, ◌-◌, ◌≤◌, ◌<◌, Option, none, some, Bool, true, false, ◌≡◌, refl,
  arith,
}
use uzh_blockchain_data_coll.Errors.{Exc, Result, ok, err, kafka_connection, manager_error}
use uzh_blockchain_data_coll.Kafka.Limits.{initial_connection_max_attempts}

-- What a call of `connect` has done: its outcome, the calls of `client.start`, and whether a call of
-- `client.stop` has returned.
pub record Attempt : Type 0 where
  pub outcome : Result (Unit {0})
  pub starts : ℕ
  pub stopped : Bool

-- `start i` is the exception of the i-th `client.start()`, and `stop` that of `client.stop()`, if they
-- raise one.
module _ (start : ℕ → Option Exc) (stop : Option Exc) where
  -- The loop with `left` attempts to go, after i attempts.
  connect_loop : ℕ → ℕ → Attempt
  connect_loop zero i = elim stop [
    | none ↦ record { outcome = err manager_error; starts = i; stopped = true }
    | some e ↦ record { outcome = err e; starts = i; stopped = false }
  ]
  connect_loop (suc left) i =
      let again = connect_loop left (i + 1) in
      elim (start i) [
        | none ↦ record { outcome = ok tt; starts = i + 1; stopped = false }
        | some kafka_connection ↦ again
        | some e ↦ record { outcome = err e; starts = i + 1; stopped = false }
      ]

  unfoldable pub connect : Attempt
  unfolding connect_loop
  connect = connect_loop initial_connection_max_attempts 0

  connect_loop_step :
      (left i : ℕ)
      → start i ≡ some kafka_connection
      → connect_loop (suc left) i ≡ connect_loop left (i + 1)
  unfolding connect_loop
  connect_loop_step left i h = ground arith

  -- After j attempts that failed for want of a connection the loop stands at the next one.
  connect_loop_skip :
      (j left i : ℕ)
      → ((k : ℕ) → k < i + j → start k ≡ some kafka_connection)
      → connect_loop (j + left) i ≡ connect_loop left (i + j)
  connect_loop_skip zero left i h = ap₂ connect_loop (omega arith) (omega arith)
  connect_loop_skip (suc j) left i h =
      ap₂ connect_loop (omega arith) refl
      ∙ connect_loop_step (j + left) i (h i (omega arith))
      ∙ connect_loop_skip j left (i + 1) (λ k lt. h k (omega arith))
      ∙ ap₂ connect_loop refl (omega arith)

  -- If the first j < 10 attempts find no connection and the next one succeeds, connect returns
  -- after j + 1 starts of the client, without stopping it.
  pub connect_succeeds :
      (j : ℕ)
      → j < initial_connection_max_attempts
      → ((k : ℕ) → k < j → start k ≡ some kafka_connection)
      → start j ≡ none
      → connect ≡ record { outcome = ok tt; starts = j + 1; stopped = false }
  unfolding connect connect_loop
  connect_succeeds j lt failed success =
      let left = 9 - j in
      let ten : initial_connection_max_attempts ≡ j + suc left = omega arith in
      let here : 0 + j ≡ j = omega arith in
      ap (λ n. connect_loop n 0) ten
      ∙ connect_loop_skip j (suc left) 0 (λ k h. failed k (omega arith))
      ∙ ap (connect_loop (suc left)) here
      ∙ rw (success, connect_loop)

  -- If the first ten attempts find no connection and the client can be stopped, connect has
  -- started the client ten times, stops it, and raises a KafkaManagerError.
  pub connect_gives_up :
      ((k : ℕ) → k < initial_connection_max_attempts → start k ≡ some kafka_connection)
      → stop ≡ none
      → connect ≡ record { outcome = err manager_error; starts = 10; stopped = true }
  unfolding connect connect_loop
  connect_gives_up failed stops =
      connect_loop_skip 10 0 0 (λ k h. failed k (omega arith)) ∙ rw stops

  connect_loop_ok :
      (left i : ℕ) (u : Unit {0})
      → (connect_loop left i).outcome ≡ ok u
      → (connect_loop left i).stopped ≡ false
  unfolding connect_loop
  connect_loop_ok zero i u h = ground (arith, h)
  connect_loop_ok (suc left) i u h = ground (arith, h, connect_loop_ok left (i + 1) u)

  -- Where connect returns, it has not stopped the client.
  pub connect_ok : (u : Unit {0}) → connect.outcome ≡ ok u → connect.stopped ≡ false
  unfolding connect
  connect_ok u h = connect_loop_ok initial_connection_max_attempts 0 u h

  connect_loop_bounds : (left i : ℕ) → (connect_loop left i).starts ≤ i + left
  unfolding connect_loop
  connect_loop_bounds zero i = ground arith
  connect_loop_bounds (suc left) i = ground (arith, connect_loop_bounds left (i + 1))
