-- ===== src/Model/Rows.antt =====
-- The pydantic models of app/model: a block, a transaction, its receipt, logs and internal calls.
-- `F` stands for Python's `float`. The validators that turn `HexBytes` into text and hex text into
-- floats belong to the values that the node connector is given.
use uzh_blockchain_data_coll.Base.{ℕ, Bool, Option, List}
use uzh_blockchain_data_coll.Base.Text.{Str}

-- `BlockData`
pub record BlockData : Type 0 where
  pub block_number : ℕ
  pub block_hash : Str
  pub nonce : Str
  pub difficulty : ℕ
  pub gas_limit : ℕ
  pub gas_used : ℕ
  pub timestamp : ℕ
  pub transactions : List Str
  pub miner : Str
  pub parent_hash : Str
  pub uncles : List Str

-- `TransactionData`
pub record TransactionData (F : Type 0) : Type 0 where
  pub transaction_hash : Option Str
  pub block_number : Option ℕ
  pub from_address : Option Str
  pub to_address : Option Str
  pub value : Option F
  pub gas_price : Option F
  pub gas_limit : Option F
  pub input_data : Option Str

-- `TransactionLogsData`
pub record TransactionLogsData : Type 0 where
  pub address : Option Str
  pub log_data : Option Str
  pub removed : Option Bool
  pub topics : Option (List Str)
  pub log_index : Option ℕ
  pub transaction_hash : Option Str

-- `TransactionReceiptData`
pub record TransactionReceiptData (F : Type 0) : Type 0 where
  pub gas_used : Option F
  pub logs : Option (List TransactionLogsData)
  pub transaction_type : Option Str
  pub contract_address : Option Str

-- `InternalTransactionData`
pub record InternalTransactionData (F : Type 0) : Type 0 where
  pub from_address : Option Str
  pub to_address : Option Str
  pub value : Option F
  pub gas_used : Option F
  pub gas_limit : Option F
  pub input_data : Option Str
  pub call_type : Option Str

-- `TokenContractData`
pub record TokenContractData (F : Type 0) : Type 0 where
  pub address : Option Str
  pub symbol : Option Str
  pub name : Option Str
  pub decimals : Option ℕ
  pub total_supply : Option F
  pub token_category : Option Str

-- `PairContractData`
pub record PairContractData : Type 0 where
  pub address : Option Str
  pub token0 : Option Str
  pub token1 : Option Str
  pub reserve0 : Option ℕ
  pub reserve1 : Option ℕ
  pub factory : Option Str
