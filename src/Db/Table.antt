-- ===== src/Db/Table.antt =====
-- The two kinds of `INSERT` that app/db/manager.py sends, on one table.
use uzh_blockchain_data_coll.Base.{
  Bool, false, Option, none, some, List, [], ◌∷◌, ◌++◌, ◌||◌, Eq, ◌==◌, if◌then◌else◌,
}
use uzh_blockchain_data_coll.Errors.{M, ok, err, not_null}

module _ {R : Type 0} where
  -- `INSERT INTO …` without a conflict clause, on a table without a key
  unfoldable pub append_row : R → M (List R) (Unit {0})
  append_row row rows = (ok tt, rows ++ (row ∷ []))

module _ {R K : Type 0} ⦃e : Eq K⦄ (key : R → Option K) where
  -- Whether some row has this key.
  unfoldable pub has_key : K → List R → Bool
  has_key k [] = false
  has_key k (r ∷ rows) = elim (key r) [ none ↦ false | some j ↦ k == j ] || has_key k rows

  abbrev insert_at : Option K → R → M (List R) (Unit {0})
  insert_at none row rows = (err not_null, rows)
  insert_at (some k) row rows = (ok tt, if has_key k rows then rows else rows ++ (row ∷ []))

  -- `INSERT INTO … ON CONFLICT (key) DO NOTHING`: a null in the key is refused, and a row whose
  -- key is taken changes nothing.
  unfoldable pub insert_row : R → M (List R) (Unit {0})
  unfolding has_key
  insert_row row = insert_at (key row) row
