-- ===== src/Producer/Ends.antt =====
-- `_start_producer` ends, with a bound on the rounds of its loop.
use uzh_blockchain_data_coll.Explorer.{get_exploration_bounds_end, get_exploration_bounds}
use uzh_blockchain_data_coll.Base.{
  refl, ℕ, zero, suc, ◌+◌, ◌≤◌, ◌<◌, Option, none, some, Bool, ◌≢◌, arith, nat_eq, inl, inr,
}
use uzh_blockchain_data_coll.Producer.{
  start_producer, catch_block_not_found, Topic, ProducerConfig, State, should_continue,
  log_producer_progress, produce_block, produce_loop,
}
use uzh_blockchain_data_coll.Errors.{Result, ok, err, Result-cases}
use uzh_blockchain_data_coll.Model.{Mode}
use uzh_blockchain_data_coll.World.{World}

-- Fuel that is enough for a configuration.
abbrev pub fuel_for : Option ℕ → ℕ
fuel_for none = 2
fuel_for (some e) = e + 2

module _ (W : World) (T : Topic) (mode : Mode) (reward : Bool) where
  -- Without an end block no block is completed: the progress message raises.
  produce_block_no_end :
      (i : ℕ) (s : State W.Float T.State) (u : Unit {0})
      → (produce_block W T mode reward none i s).0 ≢ ok u
  unfolding produce_block log_producer_progress
  produce_block_no_end i s u h = ground arith

  produce_loop_ends_none :
      (fuel i : ℕ) (s : State W.Float T.State)
      → produce_loop W T mode reward none (suc fuel) i s ≢ none
  unfolding produce_loop should_continue
  produce_loop_ends_none fuel i s h = ground (arith, produce_block_no_end i s tt)

  produce_loop_ends :
      (e fuel i : ℕ) (s : State W.Float T.State)
      → 0 < fuel
      → e + 1 < i + fuel
      → produce_loop W T mode reward (some e) fuel i s ≢ none
  unfolding produce_loop should_continue
  produce_loop_ends e zero i s p lt h = absurd (omega arith)
  produce_loop_ends e (suc fuel) i s p lt h =
      ground
        (arith, produce_loop_ends e fuel (i + 1) (produce_block W T mode reward (some e) i s).1)

  produce_loop_total :
      (o : Option ℕ) (fuel i : ℕ) (s : State W.Float T.State)
      → fuel_for o ≤ fuel
      → produce_loop W T mode reward o fuel i s ≢ none
  produce_loop_total none zero i s le = absurd (omega arith)
  produce_loop_total none (suc fuel) i s le = produce_loop_ends_none fuel i s
  produce_loop_total (some e) fuel i s le = produce_loop_ends e fuel i s (omega arith) (omega arith)

catch_ends :
    (W : World) (T : Topic) (o : Option (Result (Unit {0}) × State W.Float T.State))
    → o ≢ none
    → catch_block_not_found W T o ≢ none
catch_ends W T none h e = h refl
catch_ends W T (some (ok u, s)) h e = ground arith
catch_ends W T (some (err x, s)) h e = ground arith

-- Provided that every call of the topic's send_batch ends, by returning or raising (the wait for
-- space in front of it need not end, and is not part of this): _start_producer ends in any state
-- and whatever the node answers, within e + 2 rounds with an end block e, and within two without
-- one.
pub start_producer_total :
    (W : World) (T : Topic) (reward : Bool) (cfg : ProducerConfig) (fuel : ℕ)
    (s : State W.Float T.State)
    → fuel_for cfg.end_block ≤ fuel
    → start_producer W T fuel reward cfg s ≢ none
unfolding start_producer
start_producer_total W T reward cfg fuel s le h =
    let bounds = get_exploration_bounds W cfg.start_block cfg.end_block s.db in
    elim (Result-cases (bounds.0)) [
      | inl (b, found) ↦
          let same = get_exploration_bounds_end W cfg.start_block cfg.end_block s.db found in
          let s0 : State W.Float T.State = record {
            db = bounds.1;
            topic = s.topic;
            i_processed_block = none;
          } in
          ground (
            arith,
            found,
            catch_ends W T (produce_loop W T cfg.mode reward b.end_block fuel b.start_block s0),
            produce_loop_total W T cfg.mode reward b.end_block fuel b.start_block s0,
          )
      | inr (e, raised) ↦ ground arith
    ]
