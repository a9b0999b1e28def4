-- ===== src/Consumer/Timeout.antt =====
-- app/kafka/manager.py, the two tasks of `KafkaConsumerManager.start_consuming`: the listening task
-- and `_event_timeout_task`, which tell each other about messages by two asyncio events.
pub mod Silent
pub mod Turns
use uzh_blockchain_data_coll.Base.{
  ℕ, ◌+◌, ◌≤◌, Bool, true, false, ◌≡◌, ◌⊎◌, inl, inr, refl, arith, not, ◌&&◌, ◌||◌, List, [], ◌∷◌,
  All, leb, ap, sym, ◌∙◌,
}

pub data Listener : Type 0 where
  idle : Listener  -- head of `async for`
  handling : Listener  -- from `decr_transactions` to the end of the callback
  failed : Listener  -- the callback has raised

pub data Timer : Type 0 where
  timing : (deadline : ℕ) → Timer  -- in `wait_for(kafka_timeout_event.wait(), timeout)`
  -- `wait_for` has run out at this time, and waits for the end of the wait that it has cancelled
  cancelling : (at : ℕ) → Timer
  waiting : Timer  -- in `wait_for(kafka_consuming_event.wait(), None)`
  expired : (at : ℕ) → Timer  -- `KafkaConsumerPartitionsEmptyError`, after running out at this time

-- Time is counted in seconds, and the time-out below is at least one. The last field records, for the statements, when the messages came,
-- the last one first.
pub record Tasks : Type 0 where
  pub now : ℕ
  pub kafka_timeout_event : Bool
  pub kafka_consuming_event : Bool
  pub listener : Listener
  pub timer : Timer
  pub messages : List ℕ

abbrev pub is_cancelling : Timer → Bool
is_cancelling (cancelling at) = true
is_cancelling _ = false

-- `gather` ends with the first exception of a task.
abbrev pub is_over : Listener → Timer → Bool
is_over failed _ = true
is_over _ (expired at) = true
is_over _ _ = false

module _ (event_retrieval_timeout : ℕ) where
  abbrev pub begin : Tasks
  begin = record {
    now = 0;
    kafka_timeout_event = false;
    kafka_consuming_event = false;
    listener = idle;
    timer = timing event_retrieval_timeout;
    messages = [];
  }

  -- One step of a task. With `prompt` the timer is scheduled at least once while a message is
  -- handled: the message is not finished before the timer has cleared the event, unless it runs out.
  pub data Step (prompt : Bool) (s : Tasks) : Tasks → Type 0 where
    tick : is_over s.listener s.timer ≡ false → Step prompt s (record s { now = s.now + 1 })
    -- a message comes: `kafka_timeout_event.set()`
    message :
        is_over s.listener s.timer ≡ false
        → s.listener ≡ idle
        → Step prompt s (record s {
          kafka_timeout_event = true;
          listener = handling;
          messages = s.now ∷ s.messages;
        })
    -- the callback has returned: `kafka_consuming_event.set()`
    finish :
        is_over s.listener s.timer ≡ false
        → s.listener ≡ handling
        → (prompt ≡ false) ⊎ (s.kafka_timeout_event ≡ false) ⊎ (is_cancelling s.timer ≡ true)
        → Step prompt s (record s { kafka_consuming_event = true; listener = idle })
    fail :
        is_over s.listener s.timer ≡ false
        → s.listener ≡ handling
        → Step prompt s (record s { listener = failed })
    -- the wait for a message ends: `kafka_timeout_event.clear()`
    wake :
        (deadline : ℕ)
        → is_over s.listener s.timer ≡ false
        → s.timer ≡ timing deadline
        → s.kafka_timeout_event ≡ true
        → Step prompt s (record s { kafka_timeout_event = false; timer = waiting })
    -- the wait for the callback ends: `kafka_consuming_event.clear()`, and the loop begins again
    again :
        is_over s.listener s.timer ≡ false
        → s.timer ≡ waiting
        → s.kafka_consuming_event ≡ true
        → Step prompt s (record s {
          kafka_consuming_event = false;
          timer = timing (s.now + event_retrieval_timeout);
        })
    -- the time-out of `wait_for` runs out, and the wait for a message is cancelled
    run_out :
        (deadline : ℕ)
        → is_over s.listener s.timer ≡ false
        → s.timer ≡ timing deadline
        → s.kafka_timeout_event ≡ false
        → deadline ≤ s.now
        → Step prompt s (record s { timer = cancelling s.now })
    -- the cancelled wait has ended: `TimeoutError`, whatever has come since
    expire :
        (at : ℕ)
        → is_over s.listener s.timer ≡ false
        → s.timer ≡ cancelling at
        → Step prompt s (record s { timer = expired at })

  pub data Reach (prompt : Bool) : Tasks → Type 0 where
    start : Reach prompt begin
    later : {s t : Tasks} → Reach prompt s → Step prompt s t → Reach prompt t
