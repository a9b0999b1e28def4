-- ===== src/Db.antt =====
-- app/db/manager.py and the tables of db/sql: the statements that `DatabaseManager` sends, over
-- tables as lists of rows, the oldest row first.
pub mod Tables
pub mod Table
pub mod Unique
pub mod Lookup
pub mod Reading
use uzh_blockchain_data_coll.Base.{
  ℕ, Bool, Option, none, some, List, [], ◌∷◌, ◌++◌, leb, ◌==◌, list_eq, nat_eq, pair_eq, true,
  if◌then◌else◌,
}
use uzh_blockchain_data_coll.Base.Int.{ℤ}
use uzh_blockchain_data_coll.Base.Text.{Str}
use uzh_blockchain_data_coll.Errors.{M, Result, ok, err, unknown_block_identifier, foreign_key}
use Tables.{
  Db, BlockRow, TransactionRow, InternalRow, LogRow, NftTransferRow, ContractRow, TokenContractRow,
  SupplyChangeRow, PairContractRow, LiquidityChangeRow, block_key, transaction_key, log_key,
  nft_key, contract_key, token_contract_key, supply_key, pair_contract_key, liquidity_key,
}
use Table.{insert_row, append_row, has_key}

-- The argument of `get_block`; the dispatch is on its Python type.
pub data BlockIdentifier : Type 0 where
  latest : BlockIdentifier
  by_hash : Str → BlockIdentifier
  by_number : ℕ → BlockIdentifier
  unsupported : BlockIdentifier

-- `ORDER BY block_number DESC LIMIT 1`
unfoldable pub latest_row : List BlockRow → Option BlockRow
latest_row [] = none
latest_row (b ∷ bs) = elim (latest_row bs) [
  | none ↦ some b
  | some c ↦ if leb c.block_number b.block_number then some b else some c
]

-- `fetchrow` on `WHERE block_hash = $1`
unfoldable pub find_hash : Str → List BlockRow → Option BlockRow
find_hash h [] = none
find_hash h (b ∷ bs) = let rest = find_hash h bs in if b.block_hash == h then some b else rest

-- `fetchrow` on `WHERE block_number = $1`
unfoldable pub find_number : ℕ → List BlockRow → Option BlockRow
find_number n [] = none
find_number n (b ∷ bs) = let rest = find_number n bs in if b.block_number == n then some b else rest

-- `REFERENCES <node>_contract(address)`; a null refers to nothing and is refused by the key.
refers_to_contract : Option Str → List ContractRow → Bool
refers_to_contract none rows = true
refers_to_contract (some a) rows = has_key contract_key a rows

module _ {F : Type 0} where
  unfoldable pub insert_block : BlockRow → M (Db F) (Unit {0})
  insert_block row db =
      let (r, t) = insert_row block_key row db.block in (r, record db { block = t })

  unfoldable pub insert_transaction : TransactionRow F → M (Db F) (Unit {0})
  insert_transaction row db =
      let (r, t) = insert_row transaction_key row db.transaction in
      (r, record db { transaction = t })

  unfoldable pub insert_internal_transaction : InternalRow F → M (Db F) (Unit {0})
  insert_internal_transaction row db =
      let (r, t) = append_row row db.internal_transaction in
      (r, record db { internal_transaction = t })

  unfoldable pub insert_transaction_logs : LogRow → M (Db F) (Unit {0})
  insert_transaction_logs row db =
      let (r, t) = insert_row log_key row db.transaction_logs in
      (r, record db { transaction_logs = t })

  unfoldable pub insert_nft_transfer : NftTransferRow → M (Db F) (Unit {0})
  insert_nft_transfer row db =
      let (r, t) = insert_row nft_key row db.nft_transfer in (r, record db { nft_transfer = t })

  unfoldable pub insert_contract : ContractRow → M (Db F) (Unit {0})
  insert_contract row db =
      let (r, t) = insert_row contract_key row db.contract in (r, record db { contract = t })

  -- The key of `_token_contract` refers to `_contract`.
  unfoldable pub insert_token_contract : TokenContractRow F → M (Db F) (Unit {0})
  unfolding refers_to_contract
  insert_token_contract row db =
      let (r, t) = insert_row token_contract_key row db.token_contract in
      if refers_to_contract row.address db.contract
      then (r, record db { token_contract = t })
      else (err foreign_key, db)

  -- The key of `_pair_contract` refers to `_contract`.
  unfoldable pub insert_pair_contract : PairContractRow → M (Db F) (Unit {0})
  unfolding refers_to_contract
  insert_pair_contract row db =
      let (r, t) = insert_row pair_contract_key row db.pair_contract in
      if refers_to_contract row.address db.contract
      then (r, record db { pair_contract = t })
      else (err foreign_key, db)

  unfoldable pub insert_contract_supply_change : SupplyChangeRow → M (Db F) (Unit {0})
  insert_contract_supply_change row db =
      let (r, t) = insert_row supply_key row db.contract_supply_change in
      (r, record db { contract_supply_change = t })

  unfoldable pub insert_pair_liquidity_change : LiquidityChangeRow → M (Db F) (Unit {0})
  insert_pair_liquidity_change row db =
      let (r, t) = insert_row liquidity_key row db.pair_liquidity_change in
      (r, record db { pair_liquidity_change = t })

  unfoldable pub get_block : BlockIdentifier → M (Db F) (Option BlockRow)
  unfolding latest_row find_hash find_number
  get_block latest db = (ok (latest_row db.block), db)
  get_block (by_hash h) db = (ok (find_hash h db.block), db)
  get_block (by_number n) db = (ok (find_number n db.block), db)
  get_block unsupported db = (err unknown_block_identifier, db)
