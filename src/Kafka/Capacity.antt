-- ===== src/Kafka/Capacity.antt =====
-- The decorator `limit_topic_capacity`: sending waits while the topic is over its limit.
use uzh_blockchain_data_coll.Base.{
  ℕ, zero, suc, ◌+◌, ◌*◌, ◌≤◌, ◌<◌, Option, none, some, Bool, true, false, ◌≡◌, ◌≢◌, refl, arith,
  ◌==◌, nat_eq, if◌then◌else◌, Bool-cases, inl, inr,
}
use uzh_blockchain_data_coll.Base.Int.{ℤ, pos, ◌≤ℤ◌, ltb_ℤ, int_eq}
use uzh_blockchain_data_coll.Kafka.Limits.{max_messages_per_partition}

-- What the i-th round of the loop reads: the number of transactions in Redis and the number of
-- partitions. Both change while the loop waits.
pub record Reading : Type 0 where
  pub n_txs : ℤ
  pub n_part : ℕ

abbrev pub over_limit : Reading → Bool
over_limit r = ltb_ℤ (pos (max_messages_per_partition * r.n_part)) r.n_txs

abbrev pub is_none_left : Reading → Bool
is_none_left r = r.n_txs == pos 0

module _ (reading : ℕ → Reading) where
  -- The loop from round i, with the stall counter; `none` if the fuel runs out before it ends.
  unfoldable pub wait_loop : ℕ → ℕ → ℕ → Option ℕ
  wait_loop zero i stall = none
  wait_loop (suc fuel) i stall =
      let spin = wait_loop fuel (i + 1) stall in
      let sleep = wait_loop fuel (i + 1) (stall + 1) in
      if is_none_left (reading i)
      then (if stall == 0 then some stall else spin)
      else if over_limit (reading i)
      then sleep
      else some stall

  -- The decorator runs the wrapped method when this is `some`.
  unfoldable pub wait_for_space : ℕ → Option ℕ
  unfolding wait_loop
  wait_for_space fuel = wait_loop fuel 0 0

  -- What a loop that ends has seen: a reading within the limit, and no more stalls than rounds.
  record Ended (i fuel k : ℕ) : Type 0 where
    round : ℕ
    within : over_limit (reading round) ≡ false
    stalls : k ≤ round
    in_time : round < i + fuel

  later : {i fuel k : ℕ} → Ended (i + 1) fuel k → Ended i (suc fuel) k
  later {i} {fuel} e = record {
    round = e.round;
    within = e.within;
    stalls = e.stalls;
    in_time = let t : e.round < i + 1 + fuel = e.in_time in omega arith;
  }

  empty_within : (i : ℕ) → is_none_left (reading i) ≡ true → over_limit (reading i) ≡ false
  empty_within i z = ground arith

  wait_loop-Ended :
      (fuel i stall k : ℕ) → stall ≤ i → wait_loop fuel i stall ≡ some k → Ended i fuel k
  unfolding wait_loop
  wait_loop-Ended zero i stall k le h = cc
  wait_loop-Ended (suc fuel) i stall k le h = elim (Bool-cases (is_none_left (reading i))) [
    | inl z ↦ elim (Bool-cases (stall == 0)) [
      | inl first ↦ record {
        round = i;
        within = empty_within i z;
        stalls = ground arith;
        in_time = omega arith;
      }
      | inr stalled ↦ later (wait_loop-Ended fuel (i + 1) stall k (omega arith) (ground arith))
    ]
    | inr some_left ↦ elim (Bool-cases (over_limit (reading i))) [
      | inl over ↦ later (wait_loop-Ended fuel (i + 1) (stall + 1) k (omega arith) (ground arith))
      | inr within ↦ record {
        round = i;
        within = within;
        stalls = ground arith;
        in_time = omega arith;
      }
    ]
  ]

  -- If the wait ends after k sleeps, the reading of one of its rounds j was within the limit of
  -- 1000 messages per partition, and k is at most j.
  pub wait_for_space_sound :
      (fuel k : ℕ)
      → wait_for_space fuel ≡ some k
      → (j : ℕ) × ((reading j).n_txs ≤ℤ pos (max_messages_per_partition * (reading j).n_part))
        × (k ≤ j)
        × (j < fuel)
  unfolding wait_for_space
  wait_for_space_sound fuel k h =
      let e = wait_loop-Ended fuel 0 0 k (omega arith) h in
      let within = e.within in
      let in_time : e.round < 0 + fuel = e.in_time in (e.round, ground arith, e.stalls, omega arith)

  wait_loop_ends :
      (fuel i stall j : ℕ)
      → i ≤ j
      → j < i + fuel
      → is_none_left (reading j) ≡ false
      → over_limit (reading j) ≡ false
      → wait_loop fuel i stall ≢ none
  unfolding wait_loop
  wait_loop_ends zero i stall j le lt nonempty within h = absurd (omega arith)
  wait_loop_ends (suc fuel) i stall j le lt nonempty within h =
      ground (arith, wait_loop_ends fuel (i + 1) stall j, wait_loop_ends fuel (i + 1) (stall + 1) j)

  -- The wait ends within j + 1 rounds if the reading of round j is not 0 and within the limit.
  pub wait_for_space_ends :
      (fuel j : ℕ)
      → j < fuel
      → (reading j).n_txs ≢ pos 0
      → (reading j).n_txs ≤ℤ pos (max_messages_per_partition * (reading j).n_part)
      → wait_for_space fuel ≢ none
  unfolding wait_for_space
  wait_for_space_ends fuel j lt nonempty within =
      wait_loop_ends fuel 0 0 j (omega arith) (omega arith) (ground arith) (ground arith)

  wait_loop_spins :
      (fuel i stall : ℕ)
      → 0 < stall
      → ((j : ℕ) → i ≤ j → (reading j).n_txs ≡ pos 0)
      → wait_loop fuel i stall ≡ none
  unfolding wait_loop
  wait_loop_spins zero i stall lt empty = refl
  wait_loop_spins (suc fuel) i stall lt empty = ground (
    arith,
    empty i (omega arith),
    wait_loop_spins fuel (i + 1) stall lt (λ j le. empty j (omega arith)),
  )

  -- A topic that is over its limit at the first reading and empty at all later ones is never
  -- written to again: the wait does not end, whatever the fuel.
  pub wait_for_space_spins :
      over_limit (reading 0) ≡ true
      → ((j : ℕ) → 0 < j → (reading j).n_txs ≡ pos 0)
      → (fuel : ℕ) → wait_for_space fuel ≡ none
  unfolding wait_for_space wait_loop
  wait_for_space_spins over empty zero = refl
  wait_for_space_spins over empty (suc fuel) =
      ground
        (arith, wait_loop_spins fuel (0 + 1) (0 + 1) (omega arith) (λ j le. empty j (omega arith)))
