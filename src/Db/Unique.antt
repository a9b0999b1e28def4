-- ===== src/Db/Unique.antt =====
-- What `ON CONFLICT DO NOTHING` does: an insertion takes its key and no other, and has no effect when it
-- is repeated.
use uzh_blockchain_data_coll.Base.{
  true, Option, some, List, [], ◌∷◌, ◌++◌, ◌||◌, ◌≡◌, arith, Eq, ◌==◌, if◌then◌else◌,
}
use uzh_blockchain_data_coll.Errors.{ok}
use uzh_blockchain_data_coll.Db.Table.{has_key, insert_row}

module _ {R K : Type 0} ⦃e : Eq K⦄ (key : R → Option K) where
  pub has_key-append :
      (k : K) (rows : List R) (r : R)
      → has_key key k (rows ++ (r ∷ [])) ≡ (has_key key k rows || has_key key k (r ∷ []))
  unfolding has_key
  has_key-append k [] r = ground arith
  has_key-append k (q ∷ rows) r = ground (arith, has_key-append k rows r)

  has_key_self : (r : R) (k : K) → key r ≡ some k → has_key key k (r ∷ []) ≡ true
  unfolding has_key
  has_key_self r k h = ground arith

  -- A row whose key is not null is accepted, whatever the table holds.
  pub insert_row_ok :
      (r : R) (k : K) (rows : List R)
      → key r ≡ some k
      → insert_row key r rows ≡ (ok tt, if has_key key k rows then rows else rows ++ (r ∷ []))
  unfolding insert_row
  insert_row_ok r k rows h = ground arith

  -- After an insertion the key is taken.
  pub has_key-insert_row :
      (r : R) (k : K) (rows : List R)
      → key r ≡ some k
      → has_key key k (insert_row key r rows).1 ≡ true
  has_key-insert_row r k rows h =
      rw (insert_row_ok r k rows h) (ground (arith, has_key-append k rows r, has_key_self r k h))

  -- The same insertion once more, of a row whose key is not null, under ON CONFLICT DO NOTHING,
  -- changes nothing.
  pub insert_row-insert_row :
      (r : R) (k : K) (rows : List R)
      → key r ≡ some k
      → insert_row key r (insert_row key r rows).1 ≡ (ok tt, (insert_row key r rows).1)
  insert_row-insert_row r k rows h =
      rw (insert_row_ok r k (insert_row key r rows).1 h, has_key-insert_row r k rows h)

  -- An insertion of a row whose key is not null takes this key, and no other.
  pub has_key-insert_row_eq :
      (r : R) (j k : K) (rows : List R)
      → key r ≡ some k
      → has_key key j (insert_row key r rows).1 ≡ (has_key key j rows || j == k)
  unfolding has_key
  has_key-insert_row_eq r j k rows h =
      rw (insert_row_ok r k rows h) (ground (arith, has_key-append j rows r))
