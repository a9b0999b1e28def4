-- ===== src/Db/Tables.antt =====
-- The rows of the tables that db/sql creates, with their primary keys. A column without a
-- constraint may be null. The column `updated_at`, which a trigger fills with the time, is left out.
use uzh_blockchain_data_coll.Base.{ℕ, Bool, Option, none, some, List}
use uzh_blockchain_data_coll.Base.Int.{ℤ}
use uzh_blockchain_data_coll.Base.Text.{Str}

pub record BlockRow : Type 0 where
  pub block_number : ℕ
  pub block_hash : Str
  pub nonce : Str
  pub difficulty : ℕ
  pub gas_limit : ℕ
  pub gas_used : ℕ
  pub timestamp : ℕ
  pub miner : Str
  pub parent_hash : Str
  pub block_reward : ℕ
  pub uncles : List Str

pub record TransactionRow (F : Type 0) : Type 0 where
  pub transaction_hash : Option Str
  pub block_number : Option ℕ
  pub from_address : Option Str
  pub to_address : Option Str
  pub value : Option F
  pub transaction_fee : Option F
  pub gas_price : Option F
  pub gas_limit : Option F
  pub gas_used : Option F
  pub is_token_tx : Bool
  pub input_data : Option Str

pub record InternalRow (F : Type 0) : Type 0 where
  pub transaction_hash : Option Str
  pub from_address : Option Str
  pub to_address : Option Str
  pub value : Option F
  pub gas_limit : Option F
  pub gas_used : Option F
  pub input_data : Option Str
  pub call_type : Option Str

pub record LogRow : Type 0 where
  pub transaction_hash : Option Str
  pub address : Option Str
  pub log_index : Option ℕ
  pub log_data : Option Str
  pub removed : Option Bool
  pub topics : Option (List Str)

pub record NftTransferRow : Type 0 where
  pub transaction_hash : Option Str
  pub log_index : ℕ
  pub address : Str
  pub from_address : Str
  pub to_address : Str
  pub token_id : ℕ

pub record ContractRow : Type 0 where
  pub address : Option Str
  pub transaction_hash : Option Str
  pub is_pair_contract : Bool

pub record TokenContractRow (F : Type 0) : Type 0 where
  pub address : Option Str
  pub symbol : Option Str
  pub name : Option Str
  pub decimals : Option ℕ
  pub total_supply : Option F
  pub token_category : Option Str

pub record SupplyChangeRow : Type 0 where
  pub address : Str
  pub amount_changed : ℤ
  pub transaction_hash : Option Str

pub record PairContractRow : Type 0 where
  pub address : Option Str
  pub token0_address : Option Str
  pub token1_address : Option Str
  pub reserve0 : Option ℕ
  pub reserve1 : Option ℕ
  pub factory : Option Str

pub record LiquidityChangeRow : Type 0 where
  pub address : Str
  pub amount0 : ℤ
  pub amount1 : ℤ
  pub transaction_hash : Option Str

-- The tables of one node, `<node>_block` and so on.
pub record Db (F : Type 0) : Type 0 where
  pub block : List BlockRow
  pub transaction : List (TransactionRow F)
  pub internal_transaction : List (InternalRow F)
  pub transaction_logs : List LogRow
  pub nft_transfer : List NftTransferRow
  pub contract : List ContractRow
  pub token_contract : List (TokenContractRow F)
  pub contract_supply_change : List SupplyChangeRow
  pub pair_contract : List PairContractRow
  pub pair_liquidity_change : List LiquidityChangeRow

-- A primary key of two columns; it is null if one of them is.
abbrev pub both {ℓ κ} : {A : Type ℓ} {B : Type κ} → Option A → Option B → Option (A × B)
both none b = none
both (some a) none = none
both (some a) (some b) = some (a, b)

-- The primary keys; `none` is a null in a key column.
abbrev pub block_key : BlockRow → Option ℕ
block_key r = some r.block_number

abbrev pub transaction_key : {F : Type 0} → TransactionRow F → Option Str
transaction_key r = r.transaction_hash

abbrev pub log_key : LogRow → Option (Str × ℕ)
log_key r = both r.transaction_hash r.log_index

abbrev pub nft_key : NftTransferRow → Option (Str × ℕ)
nft_key r = both r.transaction_hash (some r.log_index)

abbrev pub contract_key : ContractRow → Option Str
contract_key r = r.address

abbrev pub token_contract_key : {F : Type 0} → TokenContractRow F → Option Str
token_contract_key r = r.address

abbrev pub supply_key : SupplyChangeRow → Option (Str × Str)
supply_key r = both (some r.address) r.transaction_hash

abbrev pub pair_contract_key : PairContractRow → Option Str
pair_contract_key r = r.address

abbrev pub liquidity_key : LiquidityChangeRow → Option (Str × Str)
liquidity_key r = both (some r.address) r.transaction_hash
