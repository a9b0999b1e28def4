-- ===== src/Node/Retry.antt =====
-- `async_exception_retry_middleware`: a request is repeated after a time-out or a lost connection.
use uzh_blockchain_data_coll.Base.{
  ap, ap₂, ◌∙◌, ◌-◌, ℕ, zero, suc, ◌+◌, ◌<◌, Bool, true, false, Option, none, some, ◌≡◌, refl,
  arith, ltb, if◌then◌else◌,
}
use uzh_blockchain_data_coll.Errors.{Result, ok, err, Exc, request_timeout, connector_error}

-- `errors`: `asyncio.TimeoutError` is the built-in `TimeoutError`.
abbrev pub is_retried : Exc → Bool
is_retried request_timeout = true
is_retried connector_error = true
is_retried _ = false

-- What a run of the middleware has done: its outcome (`none` is the `None` after the loop), the
-- requests made and the sleeps between them.
pub record Run (A : Type 0) : Type 0 where
  pub outcome : Result (Option A)
  pub requests : ℕ
  pub sleeps : ℕ

module _ {A : Type 0} (make_request : ℕ → Result A) where
  -- `for i in range(retries)`, from round i with `left` rounds to go; the answer to the request
  -- may differ from round to round.
  retry_loop : ℕ → ℕ → ℕ → Run A
  retry_loop retries zero i = record { outcome = ok none; requests = i; sleeps = i }
  retry_loop retries (suc left) i =
      let again = retry_loop retries left (i + 1) in
      elim (make_request i) [
        | ok a ↦ record { outcome = ok (some a); requests = i + 1; sleeps = i }
        | err e ↦
            if is_retried e
            then (if ltb (i + 1) retries
                then again
                else record { outcome = err e; requests = i + 1; sleeps = i })
            else record { outcome = err e; requests = i + 1; sleeps = i }
      ]

  unfoldable pub middleware : ℕ → Run A
  unfolding retry_loop
  middleware retries = retry_loop retries retries 0

  retry_loop_step :
      (retries left i : ℕ) (e : Exc)
      → i + 1 < retries
      → make_request i ≡ err e
      → is_retried e ≡ true
      → retry_loop retries (suc left) i ≡ retry_loop retries left (i + 1)
  unfolding retry_loop
  retry_loop_step retries left i e more failed retried = ground arith

  -- After j requests that failed in a way that is retried the loop stands at the next one.
  retry_loop_skip :
      (retries j left i : ℕ)
      → i + j < retries
      → ((k : ℕ) → k < i + j → (e : Exc) × (make_request k ≡ err e) × (is_retried e ≡ true))
      → retry_loop retries (j + left) i ≡ retry_loop retries left (i + j)
  retry_loop_skip retries zero left i lt h = ap₂ (retry_loop retries) (omega arith) (omega arith)
  retry_loop_skip retries (suc j) left i lt h =
      let (e, failed, retried) = h i (omega arith) in
      ap₂ (retry_loop retries) (omega arith) refl
      ∙ retry_loop_step retries (j + left) i e (omega arith) failed retried
      ∙ retry_loop_skip retries j left (i + 1) (omega arith) (λ k le. h k (omega arith))
      ∙ ap₂ (retry_loop retries) refl (omega arith)

  retry_loop_at :
      (retries j : ℕ)
      → j < retries
      → ((k : ℕ) → k < j → (e : Exc) × (make_request k ≡ err e) × (is_retried e ≡ true))
      → retry_loop retries retries 0 ≡ retry_loop retries (suc (retries - j - 1)) j
  retry_loop_at retries j lt h =
      let whole : retries ≡ j + suc (retries - j - 1) = omega arith in
      let here : 0 + j ≡ j = omega arith in
      ap (λ n. retry_loop retries n 0) whole
      ∙ retry_loop_skip retries j (suc (retries - j - 1)) 0 (omega arith)
          (λ k le. h k (omega arith))
      ∙ ap (retry_loop retries (suc (retries - j - 1))) here

  -- A result behind j requests, fewer than the limit, that all timed out or lost their
  -- connection is returned, after j + 1 requests and j sleeps.
  pub middleware_returns :
      (retries j : ℕ) (a : A)
      → j < retries
      → ((k : ℕ) → k < j → (e : Exc) × (make_request k ≡ err e) × (is_retried e ≡ true))
      → make_request j ≡ ok a
      → middleware retries ≡ record { outcome = ok (some a); requests = j + 1; sleeps = j }
  unfolding middleware retry_loop
  middleware_returns retries j a lt h found = retry_loop_at retries j lt h ∙ rw (found, retry_loop)

  -- An exception that is no time-out and no lost connection, behind j requests that were
  -- retried, goes on at once, after j + 1 requests and j sleeps.
  pub middleware_raises :
      (retries j : ℕ) (e : Exc)
      → j < retries
      → ((k : ℕ) → k < j → (e' : Exc) × (make_request k ≡ err e') × (is_retried e' ≡ true))
      → make_request j ≡ err e
      → is_retried e ≡ false
      → middleware retries ≡ record { outcome = err e; requests = j + 1; sleeps = j }
  unfolding middleware retry_loop
  middleware_raises retries j e lt h raised fatal = retry_loop_at retries j lt h ∙ ground arith

  -- If all requests time out or lose their connection, the last exception goes on, after one
  -- sleep fewer than requests.
  pub middleware_exhausted :
      (left : ℕ) (e : Exc)
      → ((k : ℕ) → k < suc left → (e' : Exc) × (make_request k ≡ err e') × (is_retried e' ≡ true))
      → make_request left ≡ err e
      → middleware (suc left) ≡ record { outcome = err e; requests = suc left; sleeps = left }
  unfolding middleware retry_loop
  middleware_exhausted left e h last =
      let retried = h left (omega arith) in
      retry_loop_at (suc left) left (omega arith) (λ k lt. h k (omega arith)) ∙ ground arith
