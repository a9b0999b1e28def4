-- ===== src/Benchmark/Ends.antt =====
-- How a run of the benchmark ends, over a node that answers every request.
use uzh_blockchain_data_coll.Base.{
  ℕ, zero, suc, ◌+◌, ◌*◌, ◌≤◌, ◌<◌, some, true, List, [], ◌∷◌, ◌++◌, length, length-append, ltb,
  leb, ◌≡◌, ◌∙◌, refl, arith, if◌then◌else◌, Bool-cases, inl, inr,
}
use uzh_blockchain_data_coll.Base.Text.{Str}
use uzh_blockchain_data_coll.Errors.{ok, err, index_error}
use uzh_blockchain_data_coll.Model.Rows.{BlockData, TransactionData}
use uzh_blockchain_data_coll.World.{World, BlockTrace, TraceEntry}
use uzh_blockchain_data_coll.Benchmark.{
  Request, Sent, send, element, first_two, collect_two, n_requests, collect_hashes, request_hashes,
  request_transaction, request_replay, request_traces, run_loops, benchmark,
}

element_inside : (hs : List Str) (i : ℕ) → i < length hs → (h : Str) × (element hs i ≡ ok h)
unfolding element
element_inside [] i lt = absurd (omega arith)
element_inside (h ∷ hs) zero lt = (h, refl)
element_inside (h ∷ hs) (suc i) lt = element_inside hs i (omega arith)

element_outside : (hs : List Str) (i : ℕ) → length hs ≤ i → element hs i ≡ err index_error
unfolding element
element_outside [] i le = refl
element_outside (h ∷ hs) zero le = absurd (omega arith)
element_outside (h ∷ hs) (suc i) le = element_outside hs i (omega arith)

length-first_two : (txs : List Str) → ltb 1 (length txs) ≡ true → length (first_two txs) ≡ 2
unfolding first_two
length-first_two [] h = absurd (ground arith)
length-first_two (a ∷ []) h = absurd (ground arith)
length-first_two (a ∷ b ∷ txs) h = refl

-- Half of the hashes that are needed.
abbrev capped : ℕ → ℕ
capped k = if leb 50 k then 50 else k

-- 1 for a block with two transactions or more.
abbrev has_two : BlockData → ℕ
has_two d = if ltb 1 (length d.transactions) then 1 else 0

length-collect_two :
    (d : BlockData) (hs : List Str) (k : ℕ)
    → length hs ≡ 2 * capped k
    → length (collect_two d.transactions hs) ≡ 2 * capped (k + has_two d)
unfolding collect_two
length-collect_two d hs k even =
    ground (arith, length-append hs (first_two d.transactions), length-first_two d.transactions)

module _ (W : World) (blocks : ℕ → BlockData) (txs : Str → TransactionData W.Float)
    (replays : Str → List TraceEntry) (traces : ℕ → List BlockTrace)
    (has_blocks : (i : ℕ) → W.get_block i ≡ ok (blocks i))
    (has_txs : (h : Str) → W.get_transaction h ≡ ok (txs h))
    (has_replays : (h : Str) → W.trace_replay (some h) ≡ ok (replays h))
    (has_traces : (i : ℕ) → W.trace_block i ≡ ok (traces i)) where
  -- The number of blocks with two transactions or more, among n blocks from the given one on.
  pub n_busy : ℕ → ℕ → ℕ
  n_busy zero i = 0
  n_busy (suc n) i = has_two (blocks i) + n_busy n (i + 1)

  collect_hashes_lem :
      (n i : ℕ) (hs : List Str) (k : ℕ) (s : List Request)
      → length hs ≡ 2 * capped k
      → (hs' : List Str) × (s' : List Request) × (collect_hashes W n i hs s ≡ (ok hs', s'))
        × (length hs' ≡ 2 * capped (k + n_busy n i))
  unfolding collect_hashes send n_busy
  collect_hashes_lem zero i hs k s even = (hs, s, refl, ground arith)
  collect_hashes_lem (suc n) i hs k s even =
      let d = blocks i in
      let next = collect_two d.transactions hs in
      let (hs', s', run, size) =
        collect_hashes_lem n (i + 1) next (k + has_two d) (s ++ (Request.get_block i ∷ []))
          (length-collect_two d hs k even) in
      (hs', s', ground (arith, has_blocks i, run), ground arith)

  request_hashes_lem :
      (f : Str → Sent (Unit {0})) (hs : List Str) (n i : ℕ) (s : List Request)
      → ((h : Str) (t : List Request) → (t' : List Request) × (f h t ≡ (ok tt, t')))
      → i ≤ length hs
      → (request_hashes W f hs n i s).0
        ≡ (if leb (i + n) (length hs) then ok tt else err index_error)
  unfolding request_hashes
  request_hashes_lem f hs zero i s fine le = ground arith
  request_hashes_lem f hs (suc n) i s fine le = elim (Bool-cases (ltb i (length hs))) [
    | inl inside ↦
        let (h, e) = element_inside hs i (ground arith) in
        let (t, step) = fine h s in
        ground (arith, e, step, request_hashes_lem f hs n (i + 1) t fine (ground arith))
    | inr outside ↦ ground (arith, element_outside hs i (ground arith))
  ]

  request_traces_lem : (n i : ℕ) (s : List Request) → (request_traces W n i s).0 ≡ ok tt
  unfolding request_traces send
  request_traces_lem zero i s = refl
  request_traces_lem (suc n) i s =
      ground (arith, has_traces i, request_traces_lem n (i + 1) (s ++ (Request.trace_block i ∷ [])))

  request_transaction_lem :
      (h : Str) (t : List Request) → (t' : List Request) × (request_transaction W h t ≡ (ok tt, t'))
  unfolding request_transaction send
  request_transaction_lem h t = (t ++ (Request.get_transaction h ∷ []), ground (arith, has_txs h))

  request_replay_lem :
      (h : Str) (t : List Request) → (t' : List Request) × (request_replay W h t ≡ (ok tt, t'))
  unfolding request_replay send
  request_replay_lem h t = (t ++ (Request.trace_replay h ∷ []), ground (arith, has_replays h))

  -- Without enough hashes the second loop breaks off, with them all four are run.
  run_loops_few :
      (n i : ℕ) (s s1 : List Request) (hs : List Str)
      → collect_hashes W n i [] s ≡ (ok hs, s1)
      → (request_hashes W (request_transaction W) hs n 0 s1).0 ≡ err index_error
      → (run_loops W n i s).0 ≡ err index_error
  unfolding run_loops
  run_loops_few n i s s1 hs run first = ground arith

  run_loops_enough :
      (n i : ℕ) (s s1 : List Request) (hs : List Str)
      → collect_hashes W n i [] s ≡ (ok hs, s1)
      → (request_hashes W (request_transaction W) hs n 0 s1).0 ≡ ok tt
      → (request_hashes W
          (request_replay W)
          hs
          n
          0
          (request_hashes W (request_transaction W) hs n 0 s1).1).0
        ≡ ok tt
      → (run_loops W n i s).0 ≡ ok tt
  unfolding run_loops
  run_loops_enough n i s s1 hs run first second =
      let s2 = (request_hashes W (request_transaction W) hs n 0 s1).1 in
      let third = request_traces_lem n i (request_hashes W (request_replay W) hs n 0 s2).1 in
      ground (arith, third)

  enough_hashes :
      (f : Str → Sent (Unit {0})) (hs : List Str) (n k : ℕ) (s : List Request)
      → ((h : Str) (t : List Request) → (t' : List Request) × (f h t ≡ (ok tt, t')))
      → n ≡ 100
      → length hs ≡ 2 * capped k
      → (request_hashes W f hs n 0 s).0 ≡ (if leb 50 k then ok tt else err index_error)
  enough_hashes f hs n k s fine many size =
      request_hashes_lem f hs n 0 s fine (omega arith) ∙ ground arith

  run_loops_lem :
      (n i : ℕ) (s : List Request)
      → n ≡ 100
      → (run_loops W n i s).0 ≡ (if leb 50 (n_busy n i) then ok tt else err index_error)
  run_loops_lem n i s many =
      let (hs, s1, run, size) = collect_hashes_lem n i [] 0 s refl in
      let k = n_busy n i in
      let size' : length hs ≡ 2 * capped k = ground arith in
      let first =
        enough_hashes (request_transaction W) hs n k s1 request_transaction_lem many size' in
      let s2 = (request_hashes W (request_transaction W) hs n 0 s1).1 in
      let second = enough_hashes (request_replay W) hs n k s2 request_replay_lem many size' in
      elim (Bool-cases (leb 50 k)) [
        | inl enough ↦
            rw enough
              (run_loops_enough n i s s1 hs run (first ∙ (rw enough)) (second ∙ (rw enough)))
        | inr few ↦ rw few (run_loops_few n i s s1 hs run (first ∙ (rw few)))
      ]

  -- Over a node that answers every request the benchmark ends normally if at least 50 of its 100
  -- blocks have two transactions or more, and else it breaks off with an IndexError.
  pub benchmark_ends :
      (i : ℕ) (s : List Request)
      → (benchmark W i s).0 ≡ (if leb 50 (n_busy n_requests i) then ok tt else err index_error)
  unfolding benchmark
  benchmark_ends i s = run_loops_lem n_requests i s refl
