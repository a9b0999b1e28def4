-- ===== src/Processor/Modes.antt =====
-- The processors of the modes partial, full and log_filter, and what they do on the same state.
use uzh_blockchain_data_coll.Base.{
  ℕ, Option, none, some, Bool, true, false, List, [], ◌∷◌, ◌++◌, map, not, if◌then◌else◌,
}
use uzh_blockchain_data_coll.Base.Text.{Str, truthy}
use uzh_blockchain_data_coll.Errors.{
  Result, ok, err, ◌>>=◌, ◌>>◌, pure, raise, lift, type_error, not_implemented,
}
use uzh_blockchain_data_coll.Model.{Mode, full, partial, log_filter, get_logs, ContractCategory}
use uzh_blockchain_data_coll.Model.Rows.{
  TransactionData, TransactionReceiptData, TransactionLogsData,
}
use uzh_blockchain_data_coll.World.{World}
use uzh_blockchain_data_coll.Parser.{ConfigCache, ContractAbi, get_contract_category, get_contract}
use uzh_blockchain_data_coll.Processor.State.{on_db, on_contracts}
use uzh_blockchain_data_coll.Processor.Handlers.{
  Action, handle_contract_creation, handle_transaction_events, handle_transaction,
}

-- `if tx_data.to_address`: `None` and the empty text are falsy.
abbrev pub present : Option Str → Bool
present none = false
present (some a) = truthy a

abbrev pub is_empty : {A : Type 0} → List A → Bool
is_empty [] = true
is_empty (x ∷ xs) = false

-- The addresses of the logs; `None` in the place of the logs cannot be iterated.
unfoldable pub log_addresses : Option (List TransactionLogsData) → Result (List (Option Str))
log_addresses none = err type_error
log_addresses (some logs) = ok (map (λ l. l.address) logs)

-- The index set that `FullTransactionProcessor` computes.
unfoldable pub all_log_indices : Option (List TransactionLogsData) → Result (List (Option ℕ))
all_log_indices none = err type_error
all_log_indices (some logs) = ok (map (λ l. l.log_index) logs)

module _ (W : World) (abi : ContractAbi W.Abi) (cache : ConfigCache) where
  -- `get_contract` and `_handle_transaction_events`, which the callers run in a row.
  unfoldable pub handle_contract_events :
      Str → ContractCategory → TransactionData W.Float → W.Receipt → Action W (List (Option ℕ))
  unfolding handle_transaction_events get_contract
  handle_contract_events a category tx receipt = do
    contract ← on_contracts (get_contract W abi a category)
    handle_transaction_events W cache contract category tx receipt

  -- One round of the loop over the event addresses: the indices for a configured address. A null
  -- address has raised in `get_contract_category`.
  unfoldable pub handle_address :
      TransactionData W.Float → W.Receipt → Option Str → Action W (List (Option ℕ))
  unfolding handle_contract_events get_contract_category
  handle_address tx receipt none = lift (get_contract_category cache none) >>= λ _. pure []
  handle_address tx receipt (some a) =
      lift (get_contract_category cache (some a))
      >>= elim [ none ↦ pure [] | some category ↦ handle_contract_events a category tx receipt ]

  -- `for address in event_addresses`, with the union of the indices.
  unfoldable pub handle_addresses :
      TransactionData W.Float
      → W.Receipt
      → List (Option Str)
      → List (Option ℕ)
      → Action W (List (Option ℕ))
  unfolding handle_address
  handle_addresses tx receipt [] found = pure found
  handle_addresses tx receipt (a ∷ as') found = do
    more ← handle_address tx receipt a
    handle_addresses tx receipt as' (found ++ more)

  -- `_process_regular_contract_interaction`, for a `to_address` that is present
  unfoldable pub process_regular_contract_interaction :
      Str
      → TransactionData W.Float
      → TransactionReceiptData W.Float
      → W.Receipt
      → Action W (Bool × List (Option ℕ))
  unfolding handle_addresses log_addresses
  process_regular_contract_interaction to tx receipt_data receipt =
      lift (log_addresses receipt_data.logs) >>= λ addresses.
      lift (get_contract_category cache (some to)) >>= elim [
        | none ↦ handle_addresses tx receipt (W.visit addresses) [] >>= λ found.
            pure (not (is_empty found), found)
        | some category ↦
            handle_contract_events to category tx receipt >>= λ found. pure (true, found)
      ]

  -- `_process_contract_creation`, for a `contract_address` that is present
  unfoldable pub process_contract_creation :
      Str → TransactionData W.Float → W.Receipt → Action W (Bool × List (Option ℕ))
  unfolding handle_contract_creation handle_transaction_events get_contract get_contract_category
  process_contract_creation a tx receipt = lift (get_contract_category cache (some a)) >>= elim [
    | none ↦ pure (false, [])
    | some category ↦ on_contracts (get_contract W abi a category) >>= λ contract.
        (handle_contract_creation W contract category
          >> (handle_transaction_events W cache contract category tx receipt >>= λ found.
              pure (true, found)))
  ]

  -- The first part of `PartialTransactionProcessor.process_transaction`: whether to save the
  -- transaction, and which logs.
  unfoldable pub choose_partial :
      Option Str
      → Option Str
      → TransactionData W.Float
      → TransactionReceiptData W.Float
      → W.Receipt
      → Action W (Bool × List (Option ℕ))
  unfolding process_regular_contract_interaction process_contract_creation
  choose_partial (some (c ∷ to)) created tx receipt_data receipt =
      process_regular_contract_interaction (c ∷ to) tx receipt_data receipt
  choose_partial _ (some (c ∷ a)) tx receipt_data receipt =
      process_contract_creation (c ∷ a) tx receipt
  choose_partial _ _ tx receipt_data receipt = pure (false, [])

  -- `PartialTransactionProcessor.process_transaction`
  unfoldable pub process_partial :
      TransactionData W.Float → TransactionReceiptData W.Float → W.Receipt → Action W Bool
  unfolding choose_partial handle_transaction
  process_partial tx receipt_data receipt =
      choose_partial tx.to_address receipt_data.contract_address tx receipt_data receipt
      >>= λ (save, found).
          if save
          then (on_db (handle_transaction W tx receipt_data found) >> pure true)
          else pure false

  -- `FullTransactionProcessor.process_transaction`
  unfoldable pub process_full :
      TransactionData W.Float → TransactionReceiptData W.Float → W.Receipt → Action W Bool
  unfolding handle_transaction all_log_indices
  process_full tx receipt_data receipt = do
    found ← lift (all_log_indices receipt_data.logs)
    on_db (handle_transaction W tx receipt_data found)
    pure true

  -- `LogFilterTransactionProcessor` inherits the method of the base class, which raises.
  unfoldable pub process_log_filter :
      TransactionData W.Float → TransactionReceiptData W.Float → W.Receipt → Action W Bool
  process_log_filter tx receipt_data receipt = raise not_implemented

  -- `self.tx_processors.get(mode, self._default_tx_processor)` of app/consumer/__init__.py; the
  -- dict has no entry for `get_logs`.
  unfoldable pub tx_processor :
      Mode → TransactionData W.Float → TransactionReceiptData W.Float → W.Receipt → Action W Bool
  unfolding process_full process_partial process_log_filter
  tx_processor full = process_full
  tx_processor partial = process_partial
  tx_processor log_filter = process_log_filter
  tx_processor get_logs = process_full
