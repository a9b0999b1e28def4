-- ===== src/Consumer/Counters.antt =====
-- The counters of a consumer and the number of waiting messages in Redis, over any events.
use uzh_blockchain_data_coll.Base.{
  ℕ, suc, ◌+◌, ◌≤◌, Option, some, Bool, true, false, List, [], ◌∷◌, ◌≡◌, ◌∙◌, ap, refl, arith,
  length, ◌⊎◌, inl, inr,
}
use uzh_blockchain_data_coll.Base.Int.{ℤ, pos, negsuc, ◌+ℤ◌, int_laws}
use uzh_blockchain_data_coll.Base.Text.{Str}
use uzh_blockchain_data_coll.Errors.{Exc, Result, ok, err, Result-cases}
use uzh_blockchain_data_coll.World.{World}
use uzh_blockchain_data_coll.Collector.{decode_kafka_event}
use uzh_blockchain_data_coll.Parser.{ConfigCache, ContractAbi}
use uzh_blockchain_data_coll.Redis.{
  SortedSet, IsLawful, get_n_transactions, decr_transactions, incrby_n_transactions,
}
use uzh_blockchain_data_coll.Processor.State.{State}
use uzh_blockchain_data_coll.Processor.Modes.{tx_processor}
use uzh_blockchain_data_coll.Consumer.{
  Event, DataConsumer, as_number, on_kafka_event, handle_message, start_consuming,
}

as_number_le : (b : Bool) → as_number b ≤ 1
as_number_le true = omega arith
as_number_le false = omega arith

minus_one : (a b : ℤ) → a ≡ b +ℤ negsuc 0 → a +ℤ pos 1 ≡ b
minus_one a b h = grind int_laws

plus_zero : (a : ℤ) → a +ℤ pos 0 ≡ a
plus_zero a = grind int_laws

plus_suc : (a b c : ℤ) (k : ℕ) → b +ℤ pos 1 ≡ a → c +ℤ pos k ≡ b → c +ℤ pos (suc k) ≡ a
plus_suc a b c k h h' = grind int_laws

module _ (W : World) (S : SortedSet) (L : IsLawful S) (abi : ContractAbi W.Abi)
    (cache : ConfigCache) where
  -- What one callback does: it raises before it changes anything, or it counts the message as
  -- consumed, and perhaps as processed.
  Outcome : DataConsumer W S abi cache → Result (Unit {0}) × DataConsumer W S abi cache → Type 0
  Outcome c (r, c') =
      ((c' ≡ c) × (x : Exc) × (r ≡ err x))
      ⊎ ((p : State W.Float W.Contract) × (h : Option Str) × (b : Bool) × (c' ≡ record c {
        processor = p;
        tx_hash = h;
        n_consumed_txs = c.n_consumed_txs + 1;
        n_processed_txs = c.n_processed_txs + as_number b;
      }))

  on_kafka_event-Outcome :
      (e : Event) (c : DataConsumer W S abi cache) → Outcome c (on_kafka_event W S abi cache e c)
  unfolding on_kafka_event Outcome
  on_kafka_event-Outcome e c = elim (Result-cases (decode_kafka_event e.value)) [
    | inr (x, h) ↦ inl (ground (arith, h), x, ground (arith, h))
    | inl ((mode, hash), h) ↦ elim (Result-cases (W.get_transaction hash)) [
      | inr (x, h1) ↦ inr (c.processor, some hash, false, ground (arith, h, h1))
      | inl (tx, h1) ↦ elim (Result-cases (W.get_transaction_receipt hash)) [
        | inr (x, h2) ↦ inr (c.processor, some hash, false, ground (arith, h, h1, h2))
        | inl ((rd, rc), h2) ↦
            let out = tx_processor W abi cache mode tx rd rc c.processor in
            elim (Result-cases out.0) [
              | inr (x, h3) ↦ inr (out.1, some hash, false, ground (arith, h, h1, h2, h3))
              | inl (done, h3) ↦ inr (out.1, some hash, done, ground (arith, h, h1, h2, h3))
            ]
      ]
    ]
  ]

  -- What k begun messages do: each of them takes 1 off the count in Redis, all but perhaps the last
  -- are counted as consumed, and no more are counted as processed than as consumed.
  unfoldable pub Stepped : (c c' : DataConsumer W S abi cache) → ℕ → Type 0
  Stepped c c' k =
      (c'.n_consumed_txs ≤ c.n_consumed_txs + k)
      × (c.n_consumed_txs + k ≤ c'.n_consumed_txs + 1)
      × (c'.n_processed_txs + c.n_consumed_txs ≤ c.n_processed_txs + c'.n_consumed_txs)
      × (get_n_transactions S c'.redis +ℤ pos k ≡ get_n_transactions S c.redis)

  Outcome-Stepped :
      (c c1 c' : DataConsumer W S abi cache) (r : Result (Unit {0}))
      → (c1.n_consumed_txs ≡ c.n_consumed_txs)
      → (c1.n_processed_txs ≡ c.n_processed_txs)
      → (get_n_transactions S c1.redis ≡ get_n_transactions S c.redis +ℤ negsuc 0)
      → Outcome c1 (r, c')
      → Stepped c c' 1 × ((r ≡ ok tt) → c'.n_consumed_txs ≡ c.n_consumed_txs + 1)
  unfolding Outcome Stepped
  Outcome-Stepped c c1 c' r same_n same_p fewer (inl (same, x, raised)) =
      let n : c'.n_consumed_txs ≡ c.n_consumed_txs = ap (λ d. d.n_consumed_txs) same ∙ same_n in
      let p : c'.n_processed_txs ≡ c.n_processed_txs = ap (λ d. d.n_processed_txs) same ∙ same_p in
      let w : get_n_transactions S c'.redis ≡ get_n_transactions S c.redis +ℤ negsuc 0 =
        ap (λ d. get_n_transactions S d.redis) same ∙ fewer in
      (
        (omega arith, omega arith, omega arith, minus_one _ _ w),
        λ fine. ground (arith, raised, fine),
      )
  Outcome-Stepped c c1 c' r same_n same_p fewer (inr (q, h, b, counted)) =
      let n : c'.n_consumed_txs ≡ c.n_consumed_txs + 1 =
        ap (λ d. d.n_consumed_txs) counted ∙ ap (λ k. k + 1) same_n in
      let p : c'.n_processed_txs ≡ c.n_processed_txs + as_number b =
        ap (λ d. d.n_processed_txs) counted ∙ ap (λ k. k + as_number b) same_p in
      let w : get_n_transactions S c'.redis ≡ get_n_transactions S c.redis +ℤ negsuc 0 =
        ap (λ d. get_n_transactions S d.redis) counted ∙ fewer in
      let small = as_number_le b in
      ((omega arith, omega arith, omega arith, minus_one _ _ w), λ fine. n)

  handle_message_lem :
      (e : Event) (c : DataConsumer W S abi cache)
      → let (r, c') = handle_message W S abi cache e c in
        Stepped c c' 1 × ((r ≡ ok tt) → c'.n_consumed_txs ≡ c.n_consumed_txs + 1)
  unfolding handle_message get_n_transactions decr_transactions incrby_n_transactions
  handle_message_lem e c =
      let c1 : DataConsumer W S abi cache = record c {
        redis = decr_transactions S e.partition c.redis;
      } in
      let (r, c') = on_kafka_event W S abi cache e c1 in
      Outcome-Stepped c c1 c' r refl refl (L.zincrby_sum c.redis (negsuc 0) e.partition)
        (on_kafka_event-Outcome e c1)

  Stepped-zero : (c : DataConsumer W S abi cache) → Stepped c c 0
  unfolding Stepped
  Stepped-zero c = (omega arith, omega arith, omega arith, plus_zero _)

  Stepped-suc :
      (c c1 c2 : DataConsumer W S abi cache) (k : ℕ)
      → Stepped c c1 1
      → c1.n_consumed_txs ≡ c.n_consumed_txs + 1
      → Stepped c1 c2 k
      → Stepped c c2 (suc k)
  unfolding Stepped
  Stepped-suc c c1 c2 k (a, b, d, w) whole (a', b', d', w') =
      (omega arith, omega arith, omega arith, plus_suc _ _ _ k w w')

  -- However a run over some events ends, k of them were begun: Redis counts k messages fewer,
  -- all but perhaps the last are counted as consumed, and no more are counted as processed than
  -- as consumed.
  pub start_consuming-Stepped :
      (es : List Event) (c : DataConsumer W S abi cache)
      → (k : ℕ) × (k ≤ length es) × Stepped c (start_consuming W S abi cache es c).1 k
  unfolding start_consuming
  start_consuming-Stepped [] c = (0, omega arith, Stepped-zero c)
  start_consuming-Stepped (e ∷ es) c =
      let now = handle_message W S abi cache e c in
      let (one, whole) = handle_message_lem e c in
      elim (Result-cases now.0) [
        | inr (x, h) ↦ (1, omega arith, ground (arith, h, one))
        | inl (u, h) ↦
            let (k, few, later) = start_consuming-Stepped es now.1 in
            (
              suc k,
              omega arith,
              ground (
                arith,
                h,
                Stepped-suc c now.1 (start_consuming W S abi cache es now.1).1 k one (whole h)
                    later,
              ),
            )
      ]
