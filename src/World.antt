-- ===== src/World.antt =====
-- What the program calls and does not implement: Python's floats, web3 (contract instances, the
-- decoding of receipts, RPC calls) and the iteration order of sets. Every model that uses some
-- of it takes a `World` as its parameter.
use uzh_blockchain_data_coll.Base.{ℕ, Option, List}
use uzh_blockchain_data_coll.Base.Text.{Str}
use uzh_blockchain_data_coll.Errors.{Result}
use uzh_blockchain_data_coll.Model.Rows.{BlockData, TransactionData, TransactionReceiptData}

-- One element of `contract.events.X().process_receipt(receipt, errors=DISCARD)`, with the decoded
-- arguments of X in `args`.
pub record EventLog (Args : Type 0) : Type 0 where
  pub event : Str
  pub address : Str
  pub log_index : ℕ
  pub args : Args

-- The arguments of the events, named as in etc/contract_abi.json.
pub record TransferArgs : Type 0 where
  pub src : Str
  pub dst : Str
  pub value : ℕ

pub record NftTransferArgs : Type 0 where
  pub src : Str
  pub dst : Str
  pub token_id : ℕ

pub record PairCreatedArgs : Type 0 where
  pub token0 : Str
  pub token1 : Str
  pub pair : Str

pub record MintArgs : Type 0 where
  pub sender : Str
  pub amount0 : ℕ
  pub amount1 : ℕ

pub record BurnArgs : Type 0 where
  pub sender : Str
  pub amount0 : ℕ
  pub amount1 : ℕ
  pub to : Str

pub record SwapArgs : Type 0 where
  pub sender : Str
  pub amount0_in : ℕ
  pub amount1_in : ℕ
  pub amount0_out : ℕ
  pub amount1_out : ℕ
  pub to : Str

-- A JSON object with text values, as an association list.
abbrev pub Json : Type 0
Json = List (Str × Str)

-- An entry of the result of `trace_block`: its type, and `action["value"]`.
pub record BlockTrace : Type 0 where
  pub trace_type : Str
  pub action_value : Str

-- An entry of the trace that `trace_replayTransaction` returns; `result` may be missing.
pub record TraceEntry : Type 0 where
  pub action : Json
  pub result : Option Json

pub record World : Type 1 where
  -- Python's `float`, its product, and `float.fromhex`
  pub Float : Type 0
  pub mul : Float → Float → Float
  pub fromhex : Str → Result Float
  -- the ABI lists of etc/contract_abi.json, web3's contracts and its receipts
  pub Abi : Type 0
  pub Contract : Type 0
  pub Receipt : Type 0
  pub eth_contract : Str → Option Abi → Contract
  pub contract_address : Contract → Str
  -- `contract.events.X().process_receipt(receipt, errors=DISCARD)` for each event X in use
  pub transfer_logs : Contract → Receipt → List (EventLog TransferArgs)
  pub issue_logs : Contract → Receipt → List (EventLog ℕ)
  pub redeem_logs : Contract → Receipt → List (EventLog ℕ)
  pub nft_transfer_logs : Contract → Receipt → List (EventLog NftTransferArgs)
  pub pair_created_logs : Contract → Receipt → List (EventLog PairCreatedArgs)
  pub mint_logs : Contract → Receipt → List (EventLog MintArgs)
  pub burn_logs : Contract → Receipt → List (EventLog BurnArgs)
  pub swap_logs : Contract → Receipt → List (EventLog SwapArgs)
  -- `await contract.functions.f().call()`, by the name f and the type of the answer
  pub call_text : Contract → Str → Result (Option Str)
  pub call_number : Contract → Str → Result (Option ℕ)
  pub call_float : Contract → Str → Result (Option Float)
  -- `w3.eth.get_block`, `get_transaction`, `get_transaction_receipt`, as pydantic reads them
  pub get_block : ℕ → Result BlockData
  pub get_transaction : Str → Result (TransactionData Float)
  pub get_transaction_receipt : Str → Result (TransactionReceiptData Float × Receipt)
  -- the RPC methods that web3 has no function for
  pub trace_block : ℕ → Result (List BlockTrace)
  pub trace_replay : Option Str → Result (List TraceEntry)
  -- the elements of a set of texts, each once, in the order in which Python visits them
  pub visit : List (Option Str) → List (Option Str)
