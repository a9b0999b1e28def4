-- ===== src/Query/Conditions.antt =====
-- What the conditions of the joins say of the rows.
use uzh_blockchain_data_coll.Base.{
  ℕ, ◌+◌, Option, none, some, Bool, true, ◌≡◌, ◌⊎◌, inl, inr, refl, arith, ◌==◌, list_eq, nat_eq,
  ◌&&◌, Bool-cases, ap, ap₂,
}
use uzh_blockchain_data_coll.Base.Int.{ℤ, pos, ◌≤ℤ◌, int_eq}
use uzh_blockchain_data_coll.Base.Text.{Str}
use uzh_blockchain_data_coll.Db.Tables.{SupplyChangeRow, TransactionRow, BlockRow}
use uzh_blockchain_data_coll.Query.{Args, Change, sql_eq, from_start, before_end}
use uzh_blockchain_data_coll.Query.Join.{ComesFrom}

-- Block n is in front of the end block, if one is given; 0 gives none.
abbrev pub EndsBehind : Option ℤ → ℕ → Type 0
EndsBehind none n = Unit
EndsBehind (some e) n = (e ≡ pos 0) ⊎ (pos (n + 1) ≤ℤ e)

-- r tells the supply change s, which is one of the address and was made by the transaction t in the
-- block b of the interval.
pub record IsChange {F : Type 0} (args : Args) (r : Change) (s : SupplyChangeRow)
    (t : TransactionRow F) (b : BlockRow) : Type 0 where
  pub hash : Str
  pub of_change : s.transaction_hash ≡ some hash
  pub of_transaction : t.transaction_hash ≡ some hash
  pub of_address : s.address ≡ args.address
  pub in_block : t.block_number ≡ some b.block_number
  pub from_start : args.start_block ≤ℤ pos b.block_number
  pub before_end : EndsBehind args.end_block b.block_number
  pub amount_changed : r.amount_changed ≡ s.amount_changed
  pub timestamp : r.timestamp ≡ b.timestamp

equal_values : (x y : Option Str) → sql_eq x y ≡ true → (h : Str) × (x ≡ some h) × (y ≡ some h)
equal_values (some a) (some b) e = (a, refl, ground (arith, e))
equal_values (some a) none e = cc
equal_values none y e = cc

-- The condition on blocks, for a transaction in block o, the interval from `from` to e, and block n.
abbrev block_test : ℤ → Option ℤ → Option ℕ → ℕ → Bool
block_test from e o n = sql_eq o (some n) && (from_start from o && before_end e o)

block_test_sound :
    (from : ℤ) (e : Option ℤ) (o : Option ℕ) (n : ℕ)
    → block_test from e o n ≡ true
    → (o ≡ some n) × (from ≤ℤ pos n) × EndsBehind e n
block_test_sound from e none n h = cc
block_test_sound from none (some m) n h = (ground (arith, h), ground (arith, h), tt)
block_test_sound from (some e) (some m) n h =
    let same : m ≡ n = ground (arith, h) in
    (
      ground (arith, h),
      ground (arith, h),
      elim (Bool-cases (e == pos 0)) [
        | inl none_given ↦ inl (ground (arith, none_given))
        | inr given ↦ inr (ground (arith, given, h))
      ],
    )

block_test_complete :
    (from : ℤ) (e : Option ℤ) (n : ℕ)
    → from ≤ℤ pos n
    → EndsBehind e n
    → block_test from e (some n) n ≡ true
block_test_complete from none n begun ends = ground (arith, begun)
block_test_complete from (some e) n begun (inl none_given) = ground (arith, begun, none_given)
block_test_complete from (some e) n begun (inr behind) = ground (arith, begun, behind)

module _ {F : Type 0} (args : Args) (r : Change) (s : SupplyChangeRow) (t : TransactionRow F)
    (b : BlockRow) where
  pub ComesFrom-IsChange : ComesFrom args r s t b → IsChange args r s t b
  ComesFrom-IsChange c =
      let joins_t = c.same_transaction in
      let joins_b = c.same_block in
      let (h, of_change, of_transaction) =
        equal_values s.transaction_hash t.transaction_hash (ground (arith, joins_t)) in
      let (in_block, begun, ends) =
        block_test_sound args.start_block args.end_block t.block_number b.block_number joins_b in
      record {
        hash = h;
        of_change = of_change;
        of_transaction = of_transaction;
        of_address = ground (arith, joins_t);
        in_block = in_block;
        from_start = begun;
        before_end = ends;
        amount_changed = ap (λ x. x.amount_changed) c.is_record;
        timestamp = ap (λ x. x.timestamp) c.is_record;
      }

  pub IsChange-ComesFrom : IsChange args r s t b → ComesFrom args r s t b
  IsChange-ComesFrom c =
      let of_change = c.of_change in
      let of_transaction = c.of_transaction in
      let of_address = c.of_address in
      let test =
        block_test_complete args.start_block args.end_block b.block_number c.from_start
          c.before_end in
      record {
        same_transaction = ground (arith, of_change, of_transaction, of_address);
        same_block = rw c.in_block test;
        is_record =
            ap₂ (λ a n. record { amount_changed = a; timestamp = n }) c.amount_changed c.timestamp;
      }
