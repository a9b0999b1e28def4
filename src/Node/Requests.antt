-- ===== src/Node/Requests.antt =====
-- `NodeConnector._make_request`: the RPC methods that web3 has no function for, behind the retry
-- middleware.
use uzh_blockchain_data_coll.Base.{
  ℕ, ◌<◌, Option, none, some, List, ◌≡◌, refl, ◌⊎◌, inl, inr, false, true, ◌∙◌, arith,
}
use uzh_blockchain_data_coll.Base.Text.{Str}
use uzh_blockchain_data_coll.Errors.{Exc, Result, ok, err, type_error}
use uzh_blockchain_data_coll.World.{World, BlockTrace, TraceEntry}
use uzh_blockchain_data_coll.Node.{get_block_reward, get_internal_transactions}
use uzh_blockchain_data_coll.Node.Retry.{
  is_retried, middleware, middleware_returns, middleware_raises,
}

-- `w3.provider.make_request`, which may answer the rounds of one request differently.
pub record Provider : Type 0 where
  pub trace_block : ℕ → ℕ → Result (List BlockTrace)
  pub trace_replay : Option Str → ℕ → Result (List TraceEntry)

-- `data["result"]` of what the middleware returns; `None` cannot be subscripted.
abbrev pub response_of : {A : Type 0} → Result (Option A) → Result A
response_of (ok none) = err type_error
response_of (ok (some a)) = ok a
response_of (err e) = err e

unfoldable pub make_request : {A : Type 0} → ℕ → (ℕ → Result A) → Result A
unfolding middleware
make_request retries answers = response_of (middleware answers retries).outcome

-- The world in which these methods are asked through the middleware.
abbrev pub with_retries : ℕ → Provider → World → World
with_retries retries p W = record W {
  trace_block = λ i. make_request retries (p.trace_block i);
  trace_replay = λ hash. make_request retries (p.trace_replay hash);
}

-- Round j, below the limit, is the first whose outcome is not retried, and its outcome is this.
pub record Settles {A : Type 0} (retries : ℕ) (answers : ℕ → Result A) (r : Result A) : Type 0 where
  pub round : ℕ
  pub in_time : round < retries
  pub before : (k : ℕ) → k < round → (e : Exc) × (answers k ≡ err e) × (is_retried e ≡ true)
  pub answer : answers round ≡ r
  pub final : ((a : A) × (r ≡ ok a)) ⊎ ((e : Exc) × (r ≡ err e) × (is_retried e ≡ false))

pub make_request-Settles :
    {A : Type 0} (retries : ℕ) (answers : ℕ → Result A) (r : Result A)
    → Settles retries answers r
    → make_request retries answers ≡ r
unfolding make_request
make_request-Settles retries answers r s =
    let answer = s.answer in
    elim s.final [
      | inl (a, e) ↦
          let run = middleware_returns answers retries s.round a s.in_time s.before (answer ∙ e) in
          ground (arith, run, e)
      | inr (x, e, fatal) ↦
          let run =
            middleware_raises answers retries s.round x s.in_time s.before (answer ∙ e) fatal in
          ground (arith, run, e)
    ]

-- If the answers to the two requests settle within the limit, behind rounds that are all
-- retried, on those of a given world, then block reward and internal transactions behind the
-- retry middleware are those of this world.
pub with_retries_lem :
    (W : World) (p : Provider) (retries block_id : ℕ) (tx_hash : Option Str)
    → Settles retries (p.trace_block block_id) (W.trace_block block_id)
    → Settles retries (p.trace_replay tx_hash) (W.trace_replay tx_hash)
    → (get_block_reward (with_retries retries p W) block_id ≡ get_block_reward W block_id)
      × (get_internal_transactions (with_retries retries p W) tx_hash
          ≡ get_internal_transactions W tx_hash)
unfolding get_block_reward get_internal_transactions
with_retries_lem W p retries block_id tx_hash traces replay =
    let t = make_request-Settles retries (p.trace_block block_id) (W.trace_block block_id) traces in
    let u = make_request-Settles retries (p.trace_replay tx_hash) (W.trace_replay tx_hash) replay in
    (rw (t, get_block_reward) refl, rw (u, get_internal_transactions) refl)
