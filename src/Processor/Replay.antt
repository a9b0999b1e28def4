-- ===== src/Processor/Replay.antt =====
-- A message that is delivered once more, or a transaction that several configurations send: the
-- processor of the mode full on a transaction that is already stored.
use uzh_blockchain_data_coll.Base.{
  ℕ, some, true, List, [], ◌∷◌, ◌++◌, map, All, ◌≡◌, refl, ◌∙◌, arith, list_eq, nat_eq, pair_eq,
}
use uzh_blockchain_data_coll.Base.Text.{Str}
use uzh_blockchain_data_coll.Errors.{ok}
use uzh_blockchain_data_coll.Model.Rows.{
  TransactionData, TransactionReceiptData, TransactionLogsData, InternalTransactionData,
}
use uzh_blockchain_data_coll.World.{World}
use uzh_blockchain_data_coll.Parser.{ConfigCache, ContractAbi}
use uzh_blockchain_data_coll.Node.{get_internal_transactions}
use uzh_blockchain_data_coll.Db.Tables.{LogRow, log_key, transaction_key}
use uzh_blockchain_data_coll.Db.Table.{has_key, insert_row}
use uzh_blockchain_data_coll.Db.Unique.{insert_row_ok, insert_row-insert_row, has_key-insert_row_eq}
use uzh_blockchain_data_coll.Processor.State.{State}
use uzh_blockchain_data_coll.Processor.Handlers.{internal_row, log_row}
use uzh_blockchain_data_coll.Processor.Full.{put_logs, HasKey, saved_row, process_full_saves}
use uzh_blockchain_data_coll.Processor.Interaction.{with_transaction}
use uzh_blockchain_data_coll.Processor.Modes.{process_full}

-- The table has a row with the log's key.
abbrev IsStored : List LogRow → TransactionLogsData → Type 0
IsStored rows l = (k : Str × ℕ) × (log_key (log_row l) ≡ some k) × (has_key log_key k rows ≡ true)

put_logs_stored :
    (ls : List TransactionLogsData) (rows : List LogRow)
    → All (IsStored rows) ls
    → put_logs ls rows ≡ rows
put_logs_stored [] rows h = refl
put_logs_stored (l ∷ ls) rows ((k, e, there), h) =
    ground (arith, insert_row_ok log_key (log_row l) k rows e, put_logs_stored ls rows h)

has_key-put_logs :
    (ls : List TransactionLogsData) (rows : List LogRow) (j : Str × ℕ)
    → All HasKey ls
    → has_key log_key j rows ≡ true
    → has_key log_key j (put_logs ls rows) ≡ true
has_key-put_logs [] rows j h there = there
has_key-put_logs (l ∷ ls) rows j ((k, e), h) there =
    has_key-put_logs ls (insert_row log_key (log_row l) rows).1 j h
      (has_key-insert_row_eq log_key (log_row l) j k rows e ∙ (rw there))

put_logs-IsStored :
    (ls : List TransactionLogsData) (rows : List LogRow)
    → All HasKey ls
    → All (IsStored (put_logs ls rows)) ls
put_logs-IsStored [] rows h = tt
put_logs-IsStored (l ∷ ls) rows ((k, e), h) =
    let rows' = (insert_row log_key (log_row l) rows).1 in
    (
      (
        k,
        e,
        has_key-put_logs ls rows' k h
            (ground (arith, has_key-insert_row_eq log_key (log_row l) k k rows e)),
      ),
      put_logs-IsStored ls rows' h,
    )

put_logs-put_logs :
    (ls : List TransactionLogsData) (rows : List LogRow)
    → All HasKey ls
    → put_logs ls (put_logs ls rows) ≡ put_logs ls rows
put_logs-put_logs ls rows h = put_logs_stored ls (put_logs ls rows) (put_logs-IsStored ls rows h)

module _ (W : World) (abi : ContractAbi W.Abi) (cache : ConfigCache) where
  -- The state with a transaction, as `process_full_saves` has it.
  abbrev saved_state :
      TransactionData W.Float
      → TransactionReceiptData W.Float
      → W.Float
      → List TransactionLogsData
      → List (InternalTransactionData W.Float)
      → State W.Float W.Contract
      → State W.Float W.Contract
  saved_state tx receipt fee ls is s = record s {
    db = with_transaction W abi cache tx receipt fee ls is s.db;
  }

  -- A transaction that the mode full can store, processed once more, is processed again without
  -- an error: its row and its logs stay as they are, and its internal transactions are stored a
  -- second time.
  pub process_full-process_full :
      (tx : TransactionData W.Float) (receipt : TransactionReceiptData W.Float) (r : W.Receipt)
      (h : Str) (price used : W.Float) (ls : List TransactionLogsData)
      (is : List (InternalTransactionData W.Float)) (s : State W.Float W.Contract)
      → tx.transaction_hash ≡ some h
      → tx.gas_price ≡ some price
      → receipt.gas_used ≡ some used
      → receipt.logs ≡ some ls
      → All HasKey ls
      → get_internal_transactions W tx.transaction_hash ≡ ok is
      → let s1 = (process_full W abi cache tx receipt r s).1 in
        process_full W abi cache tx receipt r s1 ≡ (
          ok true,
          record s1 {
            db = record (s1.db) {
              internal_transaction =
                  s1.db.internal_transaction ++ map (internal_row tx.transaction_hash) is;
            };
          },
        )
  process_full-process_full tx receipt r h price used ls is s hash priced gas logged keys traced =
      let saves = λ (t : State W.Float W.Contract).
        process_full_saves W abi cache tx receipt r h price used ls is t hash priced gas logged keys
          traced in
      let row = saved_row W abi cache tx receipt (W.mul price used) in
      let again = insert_row-insert_row transaction_key row h s.db.transaction hash in
      rw (saves s) (
        saves (saved_state tx receipt (W.mul price used) ls is s)
        ∙ ground (arith, again, put_logs-put_logs ls s.db.transaction_logs keys))
