-- ===== src/Query.antt =====
-- etc/query_tool.py, the command `supply`: a query over three tables of the node eth, and what is
-- printed of its records. The text of the query is SQL, and is read as PostgreSQL documents it.
pub mod Join
pub mod Conditions
pub mod Order
pub mod Supply
pub mod Plot
pub mod Overview
pub mod Command
use uzh_blockchain_data_coll.Base.{
  ℕ, Option, none, some, Bool, true, false, List, [], ◌∷◌, ◌++◌, map, ◌&&◌, not, ◌==◌, list_eq,
  nat_eq, leb, if◌then◌else◌, Eq,
}
use uzh_blockchain_data_coll.Base.Int.{ℤ, pos, ltb_ℤ, int_eq}
use uzh_blockchain_data_coll.Base.Text.{Str}
use uzh_blockchain_data_coll.Db.Tables.{Db, SupplyChangeRow, TransactionRow, BlockRow}

-- The arguments of the command, as argparse gives them.
pub record Args : Type 0 where
  pub address : Str
  pub start_block : ℤ
  pub end_block : Option ℤ

-- A record of the result: `amount_changed` and `timestamp`.
pub record Change : Type 0 where
  pub amount_changed : ℤ
  pub timestamp : ℕ

-- `=` in SQL is not true for a null.
abbrev pub sql_eq : {A : Type 0} ⦃e : Eq A⦄ → Option A → Option A → Bool
sql_eq (some a) (some b) = a == b
sql_eq _ _ = false

-- `T.block_number >= $2`
abbrev pub from_start : ℤ → Option ℕ → Bool
from_start start_block none = false
from_start start_block (some n) = not (ltb_ℤ (pos n) start_block)

-- The line `AND T.block_number < $3`, which is added `if args.end_block`: 0 is falsy.
abbrev pub before_end : Option ℤ → Option ℕ → Bool
before_end none n = true
before_end (some e) none = e == pos 0
before_end (some e) (some n) = if e == pos 0 then true else ltb_ℤ (pos n) e

module _ {F : Type 0} where
  -- The conditions of the two joins.
  abbrev pub joins_transaction : Args → SupplyChangeRow → TransactionRow F → Bool
  joins_transaction args s t =
      sql_eq s.transaction_hash t.transaction_hash && (s.address == args.address)

  abbrev pub joins_block : Args → TransactionRow F → BlockRow → Bool
  joins_block args t b =
      sql_eq t.block_number (some b.block_number)
      && (from_start args.start_block t.block_number && before_end args.end_block t.block_number)

  unfoldable pub join_blocks :
      Args → SupplyChangeRow → TransactionRow F → List BlockRow → List Change
  join_blocks args s t [] = []
  join_blocks args s t (b ∷ bs) =
      let rest = join_blocks args s t bs in
      if joins_block args t b
      then record { amount_changed = s.amount_changed; timestamp = b.timestamp } ∷ rest
      else rest

  unfoldable pub join_transactions :
      Args → SupplyChangeRow → List (TransactionRow F) → List BlockRow → List Change
  unfolding join_blocks
  join_transactions args s [] bs = []
  join_transactions args s (t ∷ ts) bs =
      let rest = join_transactions args s ts bs in
      if joins_transaction args s t then join_blocks args s t bs ++ rest else rest

  unfoldable pub join :
      Args → List SupplyChangeRow → List (TransactionRow F) → List BlockRow → List Change
  unfolding join_transactions
  join args [] ts bs = []
  join args (s ∷ ss) ts bs = join_transactions args s ts bs ++ join args ss ts bs

-- `ORDER BY B.timestamp ASC`. The order of equal timestamps is open in SQL; here it is one of them.
unfoldable pub insert_by : Change → List Change → List Change
insert_by r [] = r ∷ []
insert_by r (q ∷ rs) =
    let later = insert_by r rs in if leb r.timestamp q.timestamp then r ∷ q ∷ rs else q ∷ later

unfoldable pub order_by_timestamp : List Change → List Change
unfolding insert_by
order_by_timestamp [] = []
order_by_timestamp (r ∷ rs) = insert_by r (order_by_timestamp rs)

-- The records that the cursor gives.
unfoldable pub supply_changes : {F : Type 0} → Args → Db F → List Change
unfolding order_by_timestamp join
supply_changes args db =
    order_by_timestamp (join args db.contract_supply_change db.transaction db.block)

-- The lines that are printed: each record, or a message if there is none.
pub data Line : Type 0 where
  change : Change → Line
  no_changes : Str → Line

unfoldable pub cmd_supply : {F : Type 0} → Args → Db F → List Line
unfolding supply_changes
cmd_supply args db = elim (supply_changes args db) [
  | [] ↦ no_changes args.address ∷ []
  | r ∷ rs ↦ map change (r ∷ rs)
]
