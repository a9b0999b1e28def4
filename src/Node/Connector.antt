-- ===== src/Node/Connector.antt =====
-- `NodeConnector`: every request of the program behind the retry middleware, with the models that
-- pydantic makes of the answers.
use uzh_blockchain_data_coll.Base.{ℕ, Option, List}
use uzh_blockchain_data_coll.Base.Text.{Str}
use uzh_blockchain_data_coll.Errors.{Result, ok, err}
use uzh_blockchain_data_coll.Model.Rows.{BlockData, TransactionData, TransactionReceiptData}
use uzh_blockchain_data_coll.World.{World, BlockTrace, TraceEntry}
use uzh_blockchain_data_coll.Node.Requests.{make_request}

-- A node behind HTTP, which may answer the rounds of one request differently, web3's dicts of its
-- answers, and pydantic's reading of these.
pub record Rpc (F Receipt : Type 0) : Type 1 where
  pub BlockDict : Type 0
  pub TxDict : Type 0
  pub read_block : BlockDict → Result BlockData
  pub read_transaction : TxDict → Result (TransactionData F)
  pub read_receipt : Receipt → Result (TransactionReceiptData F)
  pub eth_get_block : ℕ → ℕ → Result BlockDict
  pub eth_get_transaction : Str → ℕ → Result TxDict
  pub eth_get_transaction_receipt : Str → ℕ → Result Receipt
  pub trace_block : ℕ → ℕ → Result (List BlockTrace)
  pub trace_replay : Option Str → ℕ → Result (List TraceEntry)

-- `Model(**d)`, with what the method returns made of the model and the dict
abbrev pub read_with : {D A B : Type 0} → (D → Result A) → (A → D → B) → Result D → Result B
read_with read f (err e) = err e
read_with read f (ok d) = elim (read d) [ err e ↦ err e | ok a ↦ ok (f a d) ]

module _ (W : World) (retries : ℕ) (p : Rpc W.Float W.Receipt) where
  unfoldable pub get_block_data : ℕ → Result BlockData
  get_block_data block_id =
      read_with p.read_block (λ data' d. data') (make_request retries (p.eth_get_block block_id))

  unfoldable pub get_transaction_data : Str → Result (TransactionData W.Float × p.TxDict)
  get_transaction_data tx_hash =
      read_with p.read_transaction (λ tx d. (tx, d))
        (make_request retries (p.eth_get_transaction tx_hash))

  unfoldable pub get_transaction_receipt_data :
      Str → Result (TransactionReceiptData W.Float × W.Receipt)
  get_transaction_receipt_data tx_hash =
      read_with p.read_receipt (λ receipt d. (receipt, d))
        (make_request retries (p.eth_get_transaction_receipt tx_hash))

  -- The callers drop the dict: `tx_data, _ = await …get_transaction_data(tx_hash)`.
  abbrev pub without_dict : {A D : Type 0} → Result (A × D) → Result A
  without_dict (err e) = err e
  without_dict (ok (a, d)) = ok a

  -- The world that the program meets through the connector.
  abbrev pub node_connector : World
  node_connector = record W {
    get_block = get_block_data;
    get_transaction = λ h. without_dict (get_transaction_data h);
    get_transaction_receipt = get_transaction_receipt_data;
    trace_block = λ i. make_request retries (p.trace_block i);
    trace_replay = λ h. make_request retries (p.trace_replay h);
  }
