-- ===== src/Consumer/Timeout/Silent.antt =====
-- How long no message has come when the timeout task raises.
use uzh_blockchain_data_coll.Base.{
  ℕ, ◌+◌, ◌≤◌, Bool, true, false, ◌≡◌, ◌⊎◌, inl, inr, refl, arith, List, [], ◌∷◌, All,
}
use uzh_blockchain_data_coll.Consumer.Timeout.{
  Tasks, Timer, timing, cancelling, waiting, expired, Step, tick, message, finish, fail, wake,
  again, run_out, expire, Reach, start, later,
}

module _ (event_retrieval_timeout : ℕ) where
  -- The messages until now have come at least the time-out before `at`, or not before `at`.
  abbrev pub IsSilent : ℕ → List ℕ → Type 0
  IsSilent at messages = All (λ t. (t + event_retrieval_timeout ≤ at) ⊎ (at ≤ t)) messages

  abbrev pub CameBefore : ℕ → List ℕ → Type 0
  CameBefore at messages = All (λ t. t + event_retrieval_timeout ≤ at) messages

  abbrev pub HasRunOut : ℕ → ℕ → List ℕ → Type 0
  HasRunOut now at messages = (event_retrieval_timeout ≤ at) × (at ≤ now) × IsSilent at messages

  -- While the timer runs, a message is noted in its event, or all messages came before it began.
  abbrev pub IsQuiet : Bool → ℕ → List ℕ → Timer → Type 0
  IsQuiet event now messages (timing deadline) =
      (event_retrieval_timeout ≤ deadline) × ((event ≡ true) ⊎ CameBefore deadline messages)
  IsQuiet event now messages waiting = Unit
  IsQuiet event now messages (cancelling at) = HasRunOut now at messages
  IsQuiet event now messages (expired at) = HasRunOut now at messages

  All-past : (ts : List ℕ) (now : ℕ) → All (λ t. t ≤ now) ts → All (λ t. t ≤ now + 1) ts
  All-past [] now h = tt
  All-past (t ∷ ts) now (first, h) = (omega arith, All-past ts now h)

  past-CameBefore :
      (ts : List ℕ) (now : ℕ)
      → All (λ t. t ≤ now) ts
      → CameBefore (now + event_retrieval_timeout) ts
  past-CameBefore [] now h = tt
  past-CameBefore (t ∷ ts) now (first, h) = (omega arith, past-CameBefore ts now h)

  CameBefore-IsSilent :
      (ts : List ℕ) (deadline now : ℕ) → deadline ≤ now → CameBefore deadline ts → IsSilent now ts
  CameBefore-IsSilent [] deadline now le h = tt
  CameBefore-IsSilent (t ∷ ts) deadline now le (first, h) =
      (inl (omega arith), CameBefore-IsSilent ts deadline now le h)

  tick-IsQuiet :
      (event : Bool) (now : ℕ) (ts : List ℕ) (p : Timer)
      → IsQuiet event now ts p
      → IsQuiet event (now + 1) ts p
  tick-IsQuiet event now ts (timing d) q = q
  tick-IsQuiet event now ts waiting q = q
  tick-IsQuiet event now ts (cancelling at) (a, b, c) = (a, omega arith, c)
  tick-IsQuiet event now ts (expired at) (a, b, c) = (a, omega arith, c)

  message-IsQuiet :
      (event : Bool) (now : ℕ) (ts : List ℕ) (p : Timer)
      → IsQuiet event now ts p
      → IsQuiet true now (now ∷ ts) p
  message-IsQuiet event now ts (timing d) (le, q) = (le, inl refl)
  message-IsQuiet event now ts waiting q = tt
  message-IsQuiet event now ts (cancelling at) (a, b, c) = (a, b, (inr b, c))
  message-IsQuiet event now ts (expired at) (a, b, c) = (a, b, (inr b, c))

  run_out-IsQuiet :
      (event : Bool) (now deadline : ℕ) (ts : List ℕ) (p : Timer)
      → p ≡ timing deadline
      → event ≡ false
      → deadline ≤ now
      → IsQuiet event now ts p
      → HasRunOut now now ts
  run_out-IsQuiet event now deadline ts (timing d) same unset le (a, inl set) = cc
  run_out-IsQuiet event now deadline ts (timing d) same unset le (a, inr before) =
      let d_le : d ≤ now = ground (arith, same) in
      (omega arith, omega arith, CameBefore-IsSilent ts d now d_le before)
  run_out-IsQuiet event now deadline ts waiting same unset le q = cc
  run_out-IsQuiet event now deadline ts (cancelling at) same unset le q = cc
  run_out-IsQuiet event now deadline ts (expired at) same unset le q = cc

  expire-IsQuiet :
      (event : Bool) (now at : ℕ) (ts : List ℕ) (p : Timer)
      → (p ≡ cancelling at) ⊎ (p ≡ expired at)
      → IsQuiet event now ts p
      → HasRunOut now at ts
  expire-IsQuiet event now at ts (cancelling a) (inl same) q =
      let e : at ≡ a = ground (arith, same) in rw e q
  expire-IsQuiet event now at ts (expired a) (inr same) q =
      let e : at ≡ a = ground (arith, same) in rw e q
  expire-IsQuiet event now at ts (expired a) (inl same) q = cc
  expire-IsQuiet event now at ts (cancelling a) (inr same) q = cc
  expire-IsQuiet event now at ts (timing d) h q = ground (arith, h)
  expire-IsQuiet event now at ts waiting h q = ground (arith, h)

  pub record IsTimed (s : Tasks) : Type 0 where
    pub past : All (λ t. t ≤ s.now) s.messages
    pub quiet : IsQuiet s.kafka_timeout_event s.now s.messages s.timer

  Step-IsTimed :
      {prompt : Bool} {s t : Tasks}
      → Step event_retrieval_timeout prompt s t
      → IsTimed s
      → IsTimed t
  Step-IsTimed {prompt} {s} (tick on) i = record {
    past = All-past s.messages s.now i.past;
    quiet = tick-IsQuiet s.kafka_timeout_event s.now s.messages s.timer i.quiet;
  }
  Step-IsTimed {prompt} {s} (message on at_head) i = record {
    past = (omega arith, i.past);
    quiet = message-IsQuiet s.kafka_timeout_event s.now s.messages s.timer i.quiet;
  }
  Step-IsTimed (finish on busy scheduled) i = record { past = i.past; quiet = i.quiet }
  Step-IsTimed (fail on busy) i = record { past = i.past; quiet = i.quiet }
  Step-IsTimed (wake deadline on running set) i = record { past = i.past; quiet = tt }
  Step-IsTimed {prompt} {s} (again on paused set) i = record {
    past = i.past;
    quiet = (omega arith, inr (past-CameBefore s.messages s.now i.past));
  }
  Step-IsTimed {prompt} {s} (run_out deadline on running unset reached) i = record {
    past = i.past;
    quiet =
        run_out-IsQuiet s.kafka_timeout_event s.now deadline s.messages s.timer running unset
          reached i.quiet;
  }
  Step-IsTimed {prompt} {s} (expire at on cancelled) i = record {
    past = i.past;
    quiet =
        expire-IsQuiet s.kafka_timeout_event s.now at s.messages s.timer (inl cancelled) i.quiet;
  }

  pub Reach-IsTimed :
      {prompt : Bool} {s : Tasks} → Reach event_retrieval_timeout prompt s → IsTimed s
  Reach-IsTimed start = record { past = tt; quiet = (omega arith, inr tt) }
  Reach-IsTimed (later r step) = Step-IsTimed step (Reach-IsTimed r)

  -- With a retrieval timeout of at least a second: however the listening task and the timeout
  -- task take turns, if the timeout task raises, its time-out had run out at a time that is not
  -- to come, at least the retrieval timeout after the beginning; and each message had come at
  -- least the retrieval timeout before that time, or else not before it, while wait_for was
  -- ending the wait that it had cancelled.
  pub Reach-IsSilent :
      (prompt : Bool) (s : Tasks) (at : ℕ)
      → Reach event_retrieval_timeout prompt s
      → s.timer ≡ expired at
      → (event_retrieval_timeout ≤ at) × (at ≤ s.now) × IsSilent at s.messages
  Reach-IsSilent prompt s at r over =
      expire-IsQuiet s.kafka_timeout_event s.now at s.messages s.timer (inr over)
        (Reach-IsTimed r).quiet
