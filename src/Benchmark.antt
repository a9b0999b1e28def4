-- ===== src/Benchmark.antt =====
-- etc/web3_method_benchmark.py: the requests that the benchmark sends. (The times that it measures
-- and prints are left out.)
pub mod Ends
use uzh_blockchain_data_coll.Base.{
  ℕ, zero, suc, ◌+◌, some, Bool, true, false, List, [], ◌∷◌, ◌++◌, length, ltb, ◌&&◌, if◌then◌else◌,
}
use uzh_blockchain_data_coll.Base.Text.{Str}
use uzh_blockchain_data_coll.Errors.{
  M, Result, ok, err, ◌>>=◌, ◌>>◌, pure, lift, modify, index_error,
}
use uzh_blockchain_data_coll.World.{World}

-- `N_REQUESTS`
abbrev pub n_requests : ℕ
n_requests = 100

pub data Request : Type 0 where
  get_block trace_block : ℕ → Request
  get_transaction trace_replay : Str → Request

-- The requests that were sent, in order.
abbrev pub Sent : Type 0 → Type 0
Sent A = M (List Request) A

unfoldable pub send : {A : Type 0} → Request → Result A → Sent A
send r answer = modify (λ sent. sent ++ (r ∷ [])) >> lift answer

-- `tx_hashes[i]`
unfoldable pub element : List Str → ℕ → Result Str
element [] i = err index_error
element (h ∷ hs) zero = ok h
element (h ∷ hs) (suc i) = element hs i

-- The first two transactions of a block, if it has two.
unfoldable pub first_two : List Str → List Str
first_two (a ∷ b ∷ txs) = a ∷ b ∷ []
first_two txs = []

-- `if len(block_data["transactions"]) > 1 and len(tx_hashes) < N_REQUESTS`
unfoldable pub collect_two : List Str → List Str → List Str
unfolding first_two
collect_two txs hs =
    if ltb 1 (length txs) && ltb (length hs) n_requests then hs ++ first_two txs else hs

module _ (W : World) where
  -- The first loop: n more blocks from the given number on.
  unfoldable pub collect_hashes : ℕ → ℕ → List Str → Sent (List Str)
  unfolding collect_two send
  collect_hashes zero block_number hs = pure hs
  collect_hashes (suc n) block_number hs = do
    block_data ← send (get_block block_number) (W.get_block block_number)
    collect_hashes n (block_number + 1) (collect_two block_data.transactions hs)

  -- The loops over `tx_hashes[i]`: n more requests from index i on.
  unfoldable pub request_hashes : (Str → Sent (Unit {0})) → List Str → ℕ → ℕ → Sent (Unit {0})
  unfolding element
  request_hashes f hs zero i = pure tt
  request_hashes f hs (suc n) i = do h ← lift (element hs i); f h; request_hashes f hs n (i + 1)

  unfoldable pub request_transaction : Str → Sent (Unit {0})
  unfolding send
  request_transaction h = send (get_transaction h) (W.get_transaction h) >>= λ tx. pure tt

  unfoldable pub request_replay : Str → Sent (Unit {0})
  unfolding send
  request_replay h = send (trace_replay h) (W.trace_replay (some h)) >>= λ trace. pure tt

  -- The last loop.
  unfoldable pub request_traces : ℕ → ℕ → Sent (Unit {0})
  unfolding send
  request_traces zero block_number = pure tt
  request_traces (suc n) block_number =
      send (trace_block block_number) (W.trace_block block_number) >>= λ traces.
      request_traces n (block_number + 1)

  -- The four loops of `main`, with n for `N_REQUESTS`.
  unfoldable pub run_loops : ℕ → ℕ → Sent (Unit {0})
  unfolding collect_hashes request_hashes request_transaction request_replay request_traces
  run_loops n block_number = do
    tx_hashes ← collect_hashes n block_number []
    request_hashes request_transaction tx_hashes n 0
    request_hashes request_replay tx_hashes n 0
    request_traces n block_number

  -- `main`
  unfoldable pub benchmark : ℕ → Sent (Unit {0})
  unfolding run_loops
  benchmark = run_loops n_requests
