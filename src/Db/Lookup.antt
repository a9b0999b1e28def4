-- ===== src/Db/Lookup.antt =====
-- Reading a table by its primary key, after insertions under `ON CONFLICT DO NOTHING`.
use uzh_blockchain_data_coll.Base.{
  Bool, true, false, Option, none, some, List, [], ◌∷◌, ◌++◌, ◌≡◌, refl, arith, Eq, ◌==◌,
  if◌then◌else◌,
}
use uzh_blockchain_data_coll.Db.Table.{has_key, insert_row}
use uzh_blockchain_data_coll.Db.Unique.{insert_row_ok}

-- The first of two optional values that is there.
abbrev pub or_else : {A : Type 0} → Option A → Option A → Option A
or_else none b = b
or_else (some a) b = some a

abbrev pub only_if : {A : Type 0} → Bool → A → Option A
only_if c a = if c then some a else none

module _ {R K : Type 0} ⦃e : Eq K⦄ (key : R → Option K) where
  abbrev has : Option K → K → Bool
  has none k = false
  has (some j) k = k == j

  -- The first row with this key.
  unfoldable pub find_row : K → List R → Option R
  find_row k [] = none
  find_row k (r ∷ rows) = let rest = find_row k rows in if has (key r) k then some r else rest

  has_key-find_row :
      (k : K) (rows : List R)
      → has_key key k rows ≡ elim (find_row k rows) [ none ↦ false | some r ↦ true ]
  unfolding has_key find_row
  has_key-find_row k [] = refl
  has_key-find_row k (r ∷ rows) = ground (arith, has_key-find_row k rows)

  find_row-append :
      (k j : K) (rows : List R) (r : R)
      → key r ≡ some k
      → find_row j (rows ++ (r ∷ [])) ≡ or_else (find_row j rows) (only_if (j == k) r)
  unfolding find_row
  find_row-append k j [] r h = ground arith
  find_row-append k j (q ∷ rows) r h = ground (arith, find_row-append k j rows r h)

  -- An insertion adds its row at its key if there was none, and changes nothing elsewhere.
  pub find_row-insert_row :
      (k j : K) (rows : List R) (r : R)
      → key r ≡ some k
      → find_row j (insert_row key r rows).1 ≡ or_else (find_row j rows) (only_if (j == k) r)
  find_row-insert_row k j rows r h =
      rw (insert_row_ok key r k rows h)
        (ground (arith, has_key-find_row k rows, find_row-append k j rows r h))
