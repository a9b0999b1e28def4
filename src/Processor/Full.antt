-- ===== src/Processor/Full.antt =====
-- What the processor of the mode full saves for a transaction.
use uzh_blockchain_data_coll.Base.{
  ℕ, Option, some, true, List, [], ◌∷◌, ◌++◌, map, keep, contains, All, ◌≡◌, refl, arith,
  append-nil, append_assoc, eq_self, option_eq, nat_eq, list_eq, pair_eq, Eq, sym, ◌∙◌, ap,
}
use uzh_blockchain_data_coll.Base.Text.{Str}
use uzh_blockchain_data_coll.Errors.{ok, for_each}
use uzh_blockchain_data_coll.Model.Rows.{
  TransactionData, TransactionReceiptData, TransactionLogsData, InternalTransactionData,
}
use uzh_blockchain_data_coll.World.{World}
use uzh_blockchain_data_coll.Parser.{ConfigCache, ContractAbi}
use uzh_blockchain_data_coll.Node.{get_internal_transactions}
use uzh_blockchain_data_coll.Db.{
  insert_transaction, insert_transaction_logs, insert_internal_transaction,
}
use uzh_blockchain_data_coll.Db.Tables.{Db, LogRow, TransactionRow, log_key, transaction_key}
use uzh_blockchain_data_coll.Db.Table.{insert_row, append_row}
use uzh_blockchain_data_coll.Db.Unique.{insert_row_ok}
use uzh_blockchain_data_coll.Processor.State.{State}
use uzh_blockchain_data_coll.Processor.Handlers.{
  product, items, log_row, internal_row, handle_transaction,
}
use uzh_blockchain_data_coll.Processor.Modes.{all_log_indices, process_full}

contains-map :
    {A B : Type 0} ⦃e : Eq B⦄ (f : A → B) (xs ys : List A) (x : A)
    → contains (map f (xs ++ (x ∷ ys))) (f x) ≡ true
contains-map f [] ys x = ground (arith, eq_self (f x))
contains-map f (z ∷ xs) ys x = ground (arith, contains-map f xs ys x)

-- Every element of a list is kept if the test is whether its image is among the images.
keep_all :
    {A B : Type 0} ⦃e : Eq B⦄ (f : A → B) (xs ys : List A)
    → keep (λ y. contains (map f (xs ++ ys)) (f y)) ys ≡ ys
keep_all f xs [] = refl
keep_all f xs (y ∷ ys) =
    let rest : keep (λ x. contains (map f (xs ++ (y ∷ ys))) (f x)) ys ≡ ys =
      ap (λ zs. keep (λ x. contains (map f zs) (f x)) ys) (sym (append_assoc xs (y ∷ []) ys))
      ∙ keep_all f (xs ++ (y ∷ [])) ys in
    rw (contains-map f xs ys y) (ap (λ t. y ∷ t) rest)

-- The rows of logs, inserted in order under `ON CONFLICT DO NOTHING`.
abbrev pub put_logs : List TransactionLogsData → List LogRow → List LogRow
put_logs [] rows = rows
put_logs (l ∷ ls) rows = put_logs ls (insert_row log_key (log_row l) rows).1

-- The log has the hash of its transaction and its index.
abbrev pub HasKey : TransactionLogsData → Type 0
HasKey l = (k : Str × ℕ) × (log_key (log_row l) ≡ some k)

module _ {F : Type 0} where
  pub logs_lem :
      (ls : List TransactionLogsData) (db : Db F)
      → All HasKey ls
      → for_each (λ l. insert_transaction_logs (log_row l)) ls db
        ≡ (ok tt, record db { transaction_logs = put_logs ls db.transaction_logs })
  unfolding for_each insert_transaction_logs
  logs_lem [] db h = refl
  logs_lem (l ∷ ls) db ((k, e), h) = ground (
    arith,
    insert_row_ok log_key (log_row l) k db.transaction_logs e,
    logs_lem ls
        (record db { transaction_logs = (insert_row log_key (log_row l) db.transaction_logs).1 }) h,
  )

  pub internal_lem :
      (tx_hash : Option Str) (is : List (InternalTransactionData F)) (db : Db F)
      → for_each (λ i. insert_internal_transaction (internal_row tx_hash i)) is db ≡ (
        ok tt,
        record db {
          internal_transaction = db.internal_transaction ++ map (internal_row tx_hash) is;
        },
      )
  unfolding for_each insert_internal_transaction append_row
  internal_lem h [] db = ground (arith, append-nil db.internal_transaction)
  internal_lem h (i ∷ is) db = ground (
    arith,
    internal_lem h is
        (record db { internal_transaction = db.internal_transaction ++ (internal_row h i ∷ []) }),
    append_assoc db.internal_transaction (internal_row h i ∷ []) (map (internal_row h) is),
  )

module _ (W : World) (abi : ContractAbi W.Abi) (cache : ConfigCache) where
  -- The row of a transaction with its receipt and fee.
  abbrev pub saved_row :
      TransactionData W.Float → TransactionReceiptData W.Float → W.Float → TransactionRow W.Float
  saved_row tx receipt fee = record {
    transaction_hash = tx.transaction_hash;
    block_number = tx.block_number;
    from_address = tx.from_address;
    to_address = tx.to_address;
    value = tx.value;
    transaction_fee = some fee;
    gas_price = tx.gas_price;
    gas_limit = tx.gas_limit;
    gas_used = receipt.gas_used;
    is_token_tx = true;
    input_data = tx.input_data;
  }

  -- A transaction with a hash, a gas price and the gas used, whose logs all have their keys and
  -- whose trace can be read, is stored in the mode full with its fee, all of its logs and its
  -- internal transactions, and nothing else is changed.
  pub process_full_saves :
      (tx : TransactionData W.Float) (receipt : TransactionReceiptData W.Float) (r : W.Receipt)
      (h : Str) (price used : W.Float) (ls : List TransactionLogsData)
      (is : List (InternalTransactionData W.Float)) (s : State W.Float W.Contract)
      → tx.transaction_hash ≡ some h
      → tx.gas_price ≡ some price
      → receipt.gas_used ≡ some used
      → receipt.logs ≡ some ls
      → All HasKey ls
      → get_internal_transactions W tx.transaction_hash ≡ ok is
      → process_full W abi cache tx receipt r s ≡ (
        ok true,
        record s {
          db = record (s.db) {
            transaction =
                (insert_row transaction_key
                  (saved_row tx receipt (W.mul price used))
                  s.db.transaction).1;
            transaction_logs = put_logs ls s.db.transaction_logs;
            internal_transaction =
                s.db.internal_transaction ++ map (internal_row tx.transaction_hash) is;
          };
        },
      )
  unfolding process_full handle_transaction all_log_indices product items insert_transaction
  process_full_saves tx receipt r h price used ls is s hash priced gas logged keys traced =
      let row = saved_row tx receipt (W.mul price used) in
      let d1 : Db W.Float = record (s.db) {
        transaction = (insert_row transaction_key row s.db.transaction).1;
      } in
      let d2 : Db W.Float = record d1 { transaction_logs = put_logs ls s.db.transaction_logs } in
      ground (
        arith,
        insert_row_ok transaction_key row h s.db.transaction hash,
        keep_all (λ (l : TransactionLogsData). l.log_index) [] ls,
        logs_lem ls d1 keys,
        internal_lem tx.transaction_hash is d2,
      )
