-- ===== src/Redis/Memory.antt =====
-- A sorted set in memory, as an association list, with the laws of the interface.
use uzh_blockchain_data_coll.Base.{
  ℕ, Bool-cases, List, [], ◌∷◌, ◌≡◌, ◌<◌, arith, inl, inr, ◌==◌, nat_eq, if◌then◌else◌,
}
use uzh_blockchain_data_coll.Base.Int.{ℤ, pos, ◌+ℤ◌, int_laws}
use uzh_blockchain_data_coll.Base.Dict.{lookup}
use uzh_blockchain_data_coll.Redis.{SortedSet, IsLawful, score_of, score_sum, AllBelow}

unfoldable pub add_score : List (ℕ × ℤ) → ℤ → ℕ → List (ℕ × ℤ)
add_score [] i k = (k, pos 0 +ℤ i) ∷ []
add_score ((j, v) ∷ xs) i k =
    let rest = add_score xs i k in if k == j then (j, v +ℤ i) ∷ xs else (j, v) ∷ rest

abbrev pub memory_set : SortedSet
memory_set = record { State = List (ℕ × ℤ); zincrby = add_score; zrange = λ s. s }

pub add_score_score :
    (s : List (ℕ × ℤ)) (i : ℤ) (k j : ℕ)
    → score_of j (add_score s i k) ≡ (if j == k then score_of j s +ℤ i else score_of j s)
unfolding add_score lookup
add_score_score [] i k j = ground arith
add_score_score ((m, v) ∷ xs) i k j = ground (arith, add_score_score xs i k j)

add_sum : (v x i : ℤ) → v +ℤ (x +ℤ i) ≡ v +ℤ x +ℤ i
add_sum v x i = grind int_laws

swap_sum : (v x i : ℤ) → v +ℤ i +ℤ x ≡ v +ℤ x +ℤ i
swap_sum v x i = grind int_laws

pub add_score_sum :
    (s : List (ℕ × ℤ)) (i : ℤ) (k : ℕ) → score_sum (add_score s i k) ≡ score_sum s +ℤ i
unfolding add_score
add_score_sum [] i k = grind int_laws
add_score_sum ((m, v) ∷ xs) i k =
    let ih = add_score_sum xs i k in
    elim (Bool-cases (k == m)) [
      | inl same ↦ ground (arith, same, swap_sum v (score_sum xs) i)
      | inr other ↦ ground (arith, other, ih, add_sum v (score_sum xs) i)
    ]

pub add_score_below :
    (n : ℕ) (s : List (ℕ × ℤ)) (i : ℤ) (k : ℕ) → k < n → AllBelow n s → AllBelow n (add_score s i k)
unfolding add_score
add_score_below n [] i k h a = (h, tt)
add_score_below n ((m, v) ∷ xs) i k h (a, as') =
    let ih = add_score_below n xs i k h as' in
    elim (Bool-cases (k == m)) [
      | inl same ↦ ground (arith, same, a, as')
      | inr other ↦ ground (arith, other, a, ih)
    ]

abbrev pub memory_set-IsLawful : IsLawful memory_set
memory_set-IsLawful = record {
  zincrby_score = add_score_score;
  zincrby_sum = add_score_sum;
  zincrby_below = add_score_below;
}
