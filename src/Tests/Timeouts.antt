-- ===== src/Tests/Timeouts.antt =====
-- A consumer with a time-out of one second.
use uzh_blockchain_data_coll.Base.{ℕ, ◌≤◌, true, false, ◌≡◌, refl, arith, inl, inr, List, [], ◌∷◌}
use uzh_blockchain_data_coll.Consumer.Timeout.{
  Tasks, handling, expired, Reach, start, later, tick, message, finish, wake, again, run_out,
  expire,
}
use uzh_blockchain_data_coll.Consumer.Timeout.Silent.{IsSilent, Reach-IsSilent}
use uzh_blockchain_data_coll.Consumer.Timeout.Turns.{Reach-handling}

-- One message, handled in time, then none for a second.
abbrev silent_second : (s : Tasks) × Reach 1 true s
silent_second = (
  _,
  later
      (later
        (later
          (later (later (later start (message refl refl)) (wake 1 refl refl refl))
            (finish refl refl (inr (inl refl))))
          (again refl refl refl))
        (tick refl))
      (run_out 1 refl refl refl (omega arith)),
)

abbrev quiet_run : (s : Tasks) × Reach 1 true s
quiet_run = (_, later silent_second.1 (expire 1 refl refl))

Reach-IsSilent_example : (1 ≤ 1) × (1 ≤ 1) × IsSilent 1 1 (0 ∷ [])
Reach-IsSilent_example = Reach-IsSilent 1 true quiet_run.0 1 quiet_run.1 refl

-- A message comes between the end of the time-out and the exception.
abbrev late_run : (s : Tasks) × Reach 1 true s
late_run = (_, later (later silent_second.1 (message refl refl)) (expire 1 refl refl))

Reach-handling_example :
    (t : ℕ) × (earlier : List ℕ) × (late_run.0.messages ≡ t ∷ earlier) × (1 ≤ t)
Reach-handling_example = Reach-handling 1 late_run.0 1 late_run.1 refl refl

-- Where the timer is not scheduled while the first message is handled, the event of that message
-- ends the wait for the second, and the time-out comes while the second is handled.
abbrev stale_run : (s : Tasks) × Reach 1 false s
stale_run = (
  _,
  later
      (later
        (later
          (later
            (later
              (later (later (later start (message refl refl)) (finish refl refl (inl refl)))
                (message refl refl))
              (wake 1 refl refl refl))
            (again refl refl refl))
          (tick refl))
        (run_out 1 refl refl refl (omega arith)))
      (expire 1 refl refl),
)

expires_while_handling :
    (stale_run.0.listener ≡ handling)
    × (stale_run.0.timer ≡ expired 1)
    × (stale_run.0.messages ≡ 0 ∷ 0 ∷ [])
expires_while_handling = (refl, refl, refl)
