-- ===== src/Consumer/Timeout/Turns.antt =====
-- Whether a message is handled when the timeout task raises.
use uzh_blockchain_data_coll.Base.{
  ℕ, ◌≤◌, Bool, true, false, ◌≡◌, refl, arith, not, ◌&&◌, ◌||◌, List, [], ◌∷◌, leb, ap, sym, ◌∙◌,
}
use uzh_blockchain_data_coll.Consumer.Timeout.{
  Tasks, Timer, timing, cancelling, waiting, expired, Listener, idle, handling, Step, tick, message,
  finish, fail, wake, again, run_out, expire, Reach, start, later,
}
use uzh_blockchain_data_coll.Consumer.Timeout.Silent.{IsQuiet, IsTimed, Reach-IsTimed}

module _ (event_retrieval_timeout : ℕ) where
  -- The last message came not before `at`.
  abbrev last_from : ℕ → List ℕ → Bool
  last_from at [] = false
  last_from at (t ∷ ts) = leb at t

  -- Where the timer is scheduled in time, what the events and the tasks say of each other.
  abbrev in_turn : Bool → Bool → List ℕ → Listener → Timer → Bool
  in_turn event done ts idle (timing deadline) = not done
  in_turn event done ts handling (timing deadline) = event && not done
  in_turn event done ts handling waiting = event || not done
  in_turn event done ts handling (cancelling at) = last_from at ts
  in_turn event done ts handling (expired at) = last_from at ts
  in_turn event done ts _ _ = true

  abbrev IsInTurn : Tasks → Type 0
  IsInTurn s =
      in_turn s.kafka_timeout_event s.kafka_consuming_event s.messages s.listener s.timer ≡ true

  message-IsInTurn :
      (event done : Bool) (now : ℕ) (ts : List ℕ) (p : Timer)
      → IsQuiet event_retrieval_timeout event now ts p
      → in_turn event done ts idle p ≡ true
      → in_turn true done (now ∷ ts) handling p ≡ true
  message-IsInTurn event done now ts (timing d) q i = ground (arith, i)
  message-IsInTurn event done now ts waiting q i = refl
  message-IsInTurn event done now ts (cancelling at) (a, b, c) i = ground arith
  message-IsInTurn event done now ts (expired at) (a, b, c) i = ground arith

  Step-IsInTurn :
      {s t : Tasks}
      → Step event_retrieval_timeout true s t
      → IsTimed event_retrieval_timeout s
      → IsInTurn s
      → IsInTurn t
  Step-IsInTurn {s} (tick on) q i = i
  Step-IsInTurn {s} (message on at_head) q i =
      message-IsInTurn s.kafka_timeout_event s.kafka_consuming_event s.now s.messages s.timer
        q.quiet
        (sym (
            ap (λ l. in_turn s.kafka_timeout_event s.kafka_consuming_event s.messages l s.timer)
              at_head)
          ∙ i)
  Step-IsInTurn {s} (finish on busy scheduled) q i = ground (arith, on, busy, scheduled, i)
  Step-IsInTurn {s} (fail on busy) q i = ground arith
  Step-IsInTurn {s} (wake deadline on running set) q i = ground (arith, on, running, set, i)
  Step-IsInTurn {s} (again on paused set) q i = ground (arith, on, paused, set, i)
  Step-IsInTurn {s} (run_out deadline on running unset reached) q i =
      ground (arith, on, running, unset, i)
  Step-IsInTurn {s} (expire at on cancelled) q i = ground (arith, on, cancelled, i)

  Reach-IsInTurn : {s : Tasks} → Reach event_retrieval_timeout true s → IsInTurn s
  Reach-IsInTurn start = refl
  Reach-IsInTurn (later r step) =
      Step-IsInTurn step (Reach-IsTimed event_retrieval_timeout r) (Reach-IsInTurn r)

  last_from_lem :
      (at : ℕ) (ts : List ℕ)
      → last_from at ts ≡ true
      → (t : ℕ) × (earlier : List ℕ) × (ts ≡ t ∷ earlier) × (at ≤ t)
  last_from_lem at [] h = cc
  last_from_lem at (t ∷ ts) h = (t, ts, refl, ground (arith, h))

  -- With a retrieval timeout of at least a second: if no handling of a message ends while the
  -- event of the message is still set, unless the time-out has run out (the timeout task is
  -- scheduled in time), and the timeout task raises while a message is handled, then this
  -- message did not come before the time at which the time-out ran out.
  pub Reach-handling :
      (s : Tasks) (at : ℕ)
      → Reach event_retrieval_timeout true s
      → s.timer ≡ expired at
      → s.listener ≡ handling
      → (t : ℕ) × (earlier : List ℕ) × (s.messages ≡ t ∷ earlier) × (at ≤ t)
  Reach-handling s at r over busy =
      let turn : IsInTurn s = Reach-IsInTurn r in
      last_from_lem at s.messages (ground (arith, turn, over, busy))
