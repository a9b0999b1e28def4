-- ===== src/Redis.antt =====
-- app/db/redis.py: the number of messages in each partition, in a Redis sorted set. The sorted set
-- is an interface, with the laws that Redis documents for ZINCRBY and ZRANGE.
pub mod Memory
use uzh_blockchain_data_coll.Base.{
  ℕ, suc, Option, none, some, List, [], ◌∷◌, ◌≡◌, ◌<◌, ◌==◌, nat_eq, if◌then◌else◌,
}
use uzh_blockchain_data_coll.Base.Int.{ℤ, pos, negsuc, ◌+ℤ◌}
use uzh_blockchain_data_coll.Base.Dict.{lookup}

-- The members of the program's set are partition numbers, and its scores are whole numbers.
pub record SortedSet : Type 1 where
  pub State : Type 0
  -- `ZINCRBY key increment member`
  pub zincrby : State → ℤ → ℕ → State
  -- `ZRANGE key 0 -1 WITHSCORES`: members with scores, the lowest score first
  pub zrange : State → List (ℕ × ℤ)

abbrev pub score_of : ℕ → List (ℕ × ℤ) → ℤ
score_of k xs = elim (lookup k xs) [ none ↦ pos 0 | some v ↦ v ]

abbrev pub score_sum : List (ℕ × ℤ) → ℤ
score_sum [] = pos 0
score_sum ((k, v) ∷ xs) = v +ℤ score_sum xs

-- Every member is a partition number below n.
abbrev pub AllBelow : ℕ → List (ℕ × ℤ) → Type 0
AllBelow n [] = Unit
AllBelow n ((k, v) ∷ xs) = (k < n) × AllBelow n xs

-- The documented behaviour: an increment changes the score of its member alone, from 0 if the
-- member is new, and so the sum by the increment.
pub record IsLawful (S : SortedSet) : Type 0 where
  pub zincrby_score :
      (s : S.State) (i : ℤ) (k j : ℕ)
      → score_of j (S.zrange (S.zincrby s i k))
        ≡ (if j == k then score_of j (S.zrange s) +ℤ i else score_of j (S.zrange s))
  pub zincrby_sum :
      (s : S.State) (i : ℤ) (k : ℕ)
      → score_sum (S.zrange (S.zincrby s i k)) ≡ score_sum (S.zrange s) +ℤ i
  pub zincrby_below :
      (n : ℕ) (s : S.State) (i : ℤ) (k : ℕ)
      → k < n
      → AllBelow n (S.zrange s)
      → AllBelow n (S.zrange (S.zincrby s i k))

module _ (S : SortedSet) where
  -- An empty list is falsy, and its sum is 0.
  unfoldable pub get_n_transactions : S.State → ℤ
  get_n_transactions s = score_sum (S.zrange s)

  unfoldable pub get_lowest_score_partition : S.State → Option ℕ
  get_lowest_score_partition s = elim (S.zrange s) [ [] ↦ none | (k, v) ∷ xs ↦ some k ]

  unfoldable pub incrby_n_transactions : ℕ → ℤ → S.State → S.State
  incrby_n_transactions partition incr_by s = S.zincrby s incr_by partition

  unfoldable pub decr_transactions : ℕ → S.State → S.State
  unfolding incrby_n_transactions
  decr_transactions partition = incrby_n_transactions partition (negsuc 0)
