-- ===== src/Kafka/Chunks.antt =====
-- The generator `msgs[i : i + n] for i in range(0, len(msgs), n)` in `send_batch`, n positive.
use uzh_blockchain_data_coll.Base.{
  ℕ, zero, suc, ◌≤◌, ◌<◌, List, [], ◌∷◌, ◌++◌, ◌≡◌, refl, arith, take, drop, length, All, ap, ◌∙◌,
  take-append-drop, length-take_le, length-drop_le,
}

module _ {ℓ} {A : Type ℓ} where
  -- The slices that begin in a list, with fuel for at least its length.
  chunks_fuel : ℕ → ℕ → List A → List (List A)
  chunks_fuel zero n xs = []
  chunks_fuel (suc f) n [] = []
  chunks_fuel (suc f) n (x ∷ xs) = take n (x ∷ xs) ∷ chunks_fuel f n (drop n (x ∷ xs))

  unfoldable pub chunks_of : ℕ → List A → List (List A)
  unfolding chunks_fuel
  chunks_of n xs = chunks_fuel (length xs) n xs

  abbrev pub concat : List (List A) → List A
  concat [] = []
  concat (c ∷ cs) = c ++ concat cs

  chunks_fuel-concat :
      (f n : ℕ) (xs : List A) → length xs ≤ f → concat (chunks_fuel f (suc n) xs) ≡ xs
  unfolding chunks_fuel
  chunks_fuel-concat zero n [] h = refl
  chunks_fuel-concat zero n (x ∷ xs) h = absurd (omega arith)
  chunks_fuel-concat (suc f) n [] h = refl
  chunks_fuel-concat (suc f) n (x ∷ xs) h =
      ap (λ t. x ∷ t)
        (ap (λ t. take n xs ++ t)
            (chunks_fuel-concat f n (drop n xs) (omega (arith, length-drop_le n xs)))
          ∙ take-append-drop n xs)

  chunks_fuel-IsBatch :
      (f n : ℕ) (xs : List A)
      → All (λ c. (0 < length c) × (length c ≤ suc n)) (chunks_fuel f (suc n) xs)
  unfolding chunks_fuel
  chunks_fuel-IsBatch zero n xs = tt
  chunks_fuel-IsBatch (suc f) n [] = tt
  chunks_fuel-IsBatch (suc f) n (x ∷ xs) =
      ((omega arith, omega (arith, length-take_le n xs)), chunks_fuel-IsBatch f n (drop n xs))

  -- The chunks of a list for a size n > 0, put together, are the list, and each has between 1
  -- and n elements.
  pub chunks_of_lem :
      (n : ℕ) (xs : List A)
      → 0 < n
      → (concat (chunks_of n xs) ≡ xs) × All (λ c. (0 < length c) × (length c ≤ n)) (chunks_of n xs)
  unfolding chunks_of
  chunks_of_lem zero xs h = absurd (omega arith)
  chunks_of_lem (suc n) xs h =
      (chunks_fuel-concat (length xs) n xs (omega arith), chunks_fuel-IsBatch (length xs) n xs)
