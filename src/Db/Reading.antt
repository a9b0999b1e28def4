-- ===== src/Db/Reading.antt =====
-- `get_block` against what `insert_block` has written.
use uzh_blockchain_data_coll.Base.{
  ℕ, ◌≤◌, Bool, true, false, Option, none, some, List, [], ◌∷◌, ◌==◌, leb, nat_eq, All, In, ◌≡◌,
  refl, ap, ◌∙◌, arith, inl, inr, if◌then◌else◌,
}
use uzh_blockchain_data_coll.Errors.{ok}
use uzh_blockchain_data_coll.Db.Tables.{Db, BlockRow, block_key}
use uzh_blockchain_data_coll.Db.Table.{insert_row}
use uzh_blockchain_data_coll.Db.Lookup.{find_row, find_row-insert_row, or_else, only_if}
use uzh_blockchain_data_coll.Db.{
  latest, by_number, latest_row, find_number, get_block, insert_block,
}

-- The highest block of the table, or none if it is empty.
abbrev pub IsLatest : List BlockRow → Option BlockRow → Type 0
IsLatest rows none = rows ≡ []
IsLatest rows (some b) = In b rows × All (λ r. r.block_number ≤ b.block_number) rows

find_number-find_row :
    (n : ℕ) (rows : List BlockRow) → find_number n rows ≡ find_row block_key n rows
unfolding find_number find_row
find_number-find_row n [] = refl
find_number-find_row n (r ∷ rows) = ground (arith, find_number-find_row n rows)

All-le :
    (rows : List BlockRow) (m n : ℕ)
    → m ≤ n
    → All (λ r. r.block_number ≤ m) rows
    → All (λ r. r.block_number ≤ n) rows
All-le [] m n le h = tt
All-le (r ∷ rows) m n le (first, h) = (omega arith, All-le rows m n le h)

highest_if :
    (b c : BlockRow) (rows : List BlockRow) (higher : Bool)
    → leb c.block_number b.block_number ≡ higher
    → IsLatest rows (some c)
    → IsLatest (b ∷ rows) (if higher then some b else some c)
highest_if b c rows true h (there, all) =
    (inl refl, (omega arith, All-le rows c.block_number b.block_number (ground arith) all))
highest_if b c rows false h (there, all) = (inr there, (ground arith, all))

only_block : (b : BlockRow) (rows : List BlockRow) → rows ≡ [] → IsLatest (b ∷ rows) (some b)
only_block b rows e = rw e (inl refl, (omega arith, tt))

highest :
    (b : BlockRow) (rows : List BlockRow) (o : Option BlockRow)
    → IsLatest rows o
    → IsLatest (b ∷ rows) (elim o [
      | none ↦ some b
      | some c ↦ if leb c.block_number b.block_number then some b else some c
    ])
highest b rows none e = only_block b rows e
highest b rows (some c) h = highest_if b c rows (leb c.block_number b.block_number) refl h

latest_row-IsLatest : (rows : List BlockRow) → IsLatest rows (latest_row rows)
unfolding latest_row
latest_row-IsLatest [] = refl
latest_row-IsLatest (b ∷ rows) = highest b rows (latest_row rows) (latest_row-IsLatest rows)

module _ {F : Type 0} (row : BlockRow) (db : Db F) where
  -- After insert_block, get_block gives for the identifier latest the highest block of the
  -- table, which is there, and for a number the row that was there, or else the inserted one if
  -- it has this number; and it changes nothing.
  pub get_block-insert_block :
      (n : ℕ)
      → let db' = (insert_block row db).1 in
        (o : Option BlockRow) × (get_block latest db' ≡ (ok o, db'))
        × IsLatest db'.block o
        × (get_block (by_number n) db' ≡ (
          ok (or_else (find_row block_key n db.block) (only_if (n == row.block_number) row)),
          db',
        ))
  unfolding get_block insert_block
  get_block-insert_block n =
      let rows = (insert_row block_key row db.block).1 in
      (
        latest_row rows,
        refl,
        latest_row-IsLatest rows,
        ap (λ o. (ok o, record db { block = rows }))
            (find_number-find_row n rows
              ∙ find_row-insert_row block_key row.block_number n db.block row refl),
      )
