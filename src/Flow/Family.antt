-- ===== src/Flow/Family.antt =====
-- Families indexed by task or by partition: the change at one index, and sums over the first n.
use uzh_blockchain_data_coll.Base.{
  ℕ, zero, suc, ◌+◌, ◌*◌, ◌≤◌, ◌<◌, ◌≡◌, refl, arith, ◌==◌, nat_eq, if◌then◌else◌, ltb,
}

module _ {ℓ} {A : Type ℓ} where
  -- `f[i] = a`
  abbrev pub assign : (ℕ → A) → ℕ → A → ℕ → A
  assign f i a = λ k. if i == k then a else f k

  -- The sum of the weights of f 0, …, f (n - 1).
  unfoldable pub sum_of : (A → ℕ) → (ℕ → A) → ℕ → ℕ
  sum_of w f zero = 0
  sum_of w f (suc n) = w (f n) + sum_of w f n

  -- An assignment exchanges one summand, if its index is among them.
  sum_of-assign_any :
      (w : A → ℕ) (f : ℕ → A) (i : ℕ) (a : A) (n : ℕ)
      → sum_of w (assign f i a) n + (if ltb i n then w (f i) else 0)
        ≡ sum_of w f n + (if ltb i n then w a else 0)
  unfolding sum_of
  sum_of-assign_any w f i a zero = ground arith
  sum_of-assign_any w f i a (suc n) = ground (arith, sum_of-assign_any w f i a n)

  pub sum_of-assign :
      (w : A → ℕ) (f : ℕ → A) (i : ℕ) (a : A) (n : ℕ)
      → i < n
      → sum_of w (assign f i a) n + w (f i) ≡ sum_of w f n + w a
  sum_of-assign w f i a n below = ground (arith, sum_of-assign_any w f i a n)

  -- With summands of at most m, the sum without the i-th one is at most (n - 1) * m.
  others_le_any :
      (w : A → ℕ) (f : ℕ → A) (m i n : ℕ)
      → ((j : ℕ) → w (f j) ≤ m)
      → sum_of w f n + (if ltb i n then m else 0) ≤ n * m + (if ltb i n then w (f i) else 0)
  unfolding sum_of
  others_le_any w f m i zero small = ground arith
  others_le_any w f m i (suc n) small = ground (arith, small n, others_le_any w f m i n small)

  pub others_le :
      (w : A → ℕ) (f : ℕ → A) (m i n : ℕ)
      → i < n
      → ((j : ℕ) → w (f j) ≤ m)
      → sum_of w f n + m ≤ n * m + w (f i)
  others_le w f m i n below small = ground (arith, others_le_any w f m i n small)

  -- A weight that is nowhere larger has no larger sum.
  pub sum_of_le :
      (v w : A → ℕ) (f : ℕ → A) (n : ℕ) → ((a : A) → v a ≤ w a) → sum_of v f n ≤ sum_of w f n
  unfolding sum_of
  sum_of_le v w f zero h = omega arith
  sum_of_le v w f (suc n) h = omega (arith, h (f n), sum_of_le v w f n h)

  -- The sum over a family that is the same everywhere, of weight 0.
  pub sum_of-constant : (w : A → ℕ) (a : A) (n : ℕ) → w a ≡ 0 → sum_of w (λ _. a) n ≡ 0
  unfolding sum_of
  sum_of-constant w a zero h = refl
  sum_of-constant w a (suc n) h = ground (arith, h, sum_of-constant w a n h)
