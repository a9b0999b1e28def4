-- ===== src/Processor/Interaction.antt =====
-- What the processor of the mode partial saves for a call of a configured contract.
use uzh_blockchain_data_coll.Base.{
  ℕ, Option, some, Bool, true, List, [], ◌∷◌, ◌++◌, map, keep, contains, All, ◌≡◌, arith, nat_eq,
  option_eq, list_eq, pair_eq,
}
use uzh_blockchain_data_coll.Base.Dict.{Dict}
use uzh_blockchain_data_coll.Base.Text.{Str}
use uzh_blockchain_data_coll.Errors.{ok}
use uzh_blockchain_data_coll.Model.{ContractCategory}
use uzh_blockchain_data_coll.Model.Rows.{
  TransactionData, TransactionReceiptData, TransactionLogsData, InternalTransactionData,
}
use uzh_blockchain_data_coll.World.{World}
use uzh_blockchain_data_coll.Node.{get_internal_transactions}
use uzh_blockchain_data_coll.Db.{insert_transaction}
use uzh_blockchain_data_coll.Db.Tables.{Db, transaction_key}
use uzh_blockchain_data_coll.Db.Table.{insert_row}
use uzh_blockchain_data_coll.Db.Unique.{insert_row_ok}
use uzh_blockchain_data_coll.Events.{get_transaction_events}
use uzh_blockchain_data_coll.Parser.{
  ConfigCache, ContractAbi, get_contract, get_contract_category, get_contract_events,
}
use uzh_blockchain_data_coll.Processor.State.{State}
use uzh_blockchain_data_coll.Processor.Handlers.{
  product, items, internal_row, handle_events, handle_transaction, handle_transaction_events,
}
use uzh_blockchain_data_coll.Processor.Modes.{
  handle_contract_events, process_regular_contract_interaction, choose_partial, process_partial,
  log_addresses,
}
use uzh_blockchain_data_coll.Processor.Tally.{relevant, index_of}
use uzh_blockchain_data_coll.Processor.Supply.{handle_events_saves}
use uzh_blockchain_data_coll.Processor.Full.{put_logs, HasKey, saved_row, logs_lem, internal_lem}

pub All-keep :
    {A : Type 0} (P : A → Type 0) (p : A → Bool) (xs : List A) → All P xs → All P (keep p xs)
All-keep P p [] h = tt
All-keep P p (x ∷ xs) (h, hs) = ground (arith, h, All-keep P p xs hs)

module _ (W : World) (abi : ContractAbi W.Abi) (cache : ConfigCache) where
  -- The database with a transaction, the given logs and internal transactions.
  abbrev pub with_transaction :
      TransactionData W.Float
      → TransactionReceiptData W.Float
      → W.Float
      → List TransactionLogsData
      → List (InternalTransactionData W.Float)
      → Db W.Float
      → Db W.Float
  with_transaction tx receipt_data fee ls is d = record d {
    transaction =
        (insert_row transaction_key (saved_row W abi cache tx receipt_data fee) d.transaction).1;
    transaction_logs = put_logs ls d.transaction_logs;
    internal_transaction = d.internal_transaction ++ map (internal_row tx.transaction_hash) is;
  }

  pub handle_transaction-with_transaction :
      (tx : TransactionData W.Float) (receipt_data : TransactionReceiptData W.Float) (h : Str)
      (price used : W.Float) (ls : List TransactionLogsData)
      (is : List (InternalTransactionData W.Float)) (found : List (Option ℕ)) (d : Db W.Float)
      → tx.transaction_hash ≡ some h
      → tx.gas_price ≡ some price
      → receipt_data.gas_used ≡ some used
      → receipt_data.logs ≡ some ls
      → All HasKey (keep (λ l. contains found l.log_index) ls)
      → get_internal_transactions W tx.transaction_hash ≡ ok is
      → handle_transaction W tx receipt_data found d ≡ (
        ok tt,
        with_transaction tx receipt_data
            (W.mul price used)
            (keep (λ l. contains found l.log_index) ls)
            is
            d,
      )
  unfolding handle_transaction product items insert_transaction
  handle_transaction-with_transaction tx receipt_data h price used ls is found d hash priced gas
        logged keys traced =
      let row = saved_row W abi cache tx receipt_data (W.mul price used) in
      let kept = keep (λ (l : TransactionLogsData). contains found l.log_index) ls in
      let d1 : Db W.Float = record d {
        transaction = (insert_row transaction_key row d.transaction).1;
      } in
      let d2 : Db W.Float = record d1 { transaction_logs = put_logs kept d.transaction_logs } in
      ground (
        arith,
        insert_row_ok transaction_key row h d.transaction hash,
        logs_lem kept d1 keys,
        internal_lem tx.transaction_hash is d2,
      )

  pub contract_events_lem :
      (a : Str) (category : ContractCategory) (tx : TransactionData W.Float) (receipt : W.Receipt)
      (h : Str) (k : W.Contract) (known : Dict Str W.Contract) (allowed : List Str)
      (s : State W.Float W.Contract)
      → tx.transaction_hash ≡ some h
      → get_contract W abi a category s.contracts ≡ (ok k, known)
      → get_contract_events cache (some (W.contract_address k)) ≡ ok (some allowed)
      → let es = get_transaction_events W category k receipt in
        handle_contract_events W abi cache a category tx receipt s ≡ (
          ok (map index_of (relevant allowed (W.contract_address k) es)),
          record {
            db = (handle_events (some allowed) (W.contract_address k) (some h) es s.db).1;
            contracts = known;
          },
        )
  unfolding handle_contract_events handle_transaction_events
  contract_events_lem a category tx receipt h k known allowed s hash made listed = ground (
    arith,
    hash,
    made,
    listed,
    (handle_events_saves (W.contract_address k) h allowed
        (get_transaction_events W category k receipt) s.db).0,
  )

  process_partial-with_transaction :
      (tx : TransactionData W.Float) (receipt_data : TransactionReceiptData W.Float)
      (receipt : W.Receipt) (c : ℕ) (to : Str) (category : ContractCategory)
      (ls : List TransactionLogsData) (found : List (Option ℕ)) (s s' : State W.Float W.Contract)
      (d : Db W.Float)
      → tx.to_address ≡ some (c ∷ to)
      → receipt_data.logs ≡ some ls
      → get_contract_category cache (some (c ∷ to)) ≡ ok (some category)
      → handle_contract_events W abi cache (c ∷ to) category tx receipt s ≡ (ok found, s')
      → handle_transaction W tx receipt_data found s'.db ≡ (ok tt, d)
      → process_partial W abi cache tx receipt_data receipt s ≡ (ok true, record s' { db = d })
  unfolding process_partial choose_partial process_regular_contract_interaction log_addresses
  process_partial-with_transaction tx receipt_data receipt c to category ls found s s' d target
        logged listed handled saved =
      ground (arith, target, logged, listed, handled, saved)

  -- A call of a configured contract, by a transaction with a hash, a gas price and the gas used,
  -- whose logs all have their keys and whose trace can be read, is processed in the mode
  -- partial: its events are handled for the contract and its allowed event names, the
  -- transaction is stored with its fee and its internal transactions, and of its logs exactly
  -- those are stored whose index is that of an event with an allowed name and the contract's
  -- address.
  pub process_partial_saves :
      (tx : TransactionData W.Float) (receipt_data : TransactionReceiptData W.Float)
      (receipt : W.Receipt) (c : ℕ) (to h : Str) (category : ContractCategory) (k : W.Contract)
      (known : Dict Str W.Contract) (allowed : List Str) (price used : W.Float)
      (ls : List TransactionLogsData) (is : List (InternalTransactionData W.Float))
      (s : State W.Float W.Contract)
      → tx.transaction_hash ≡ some h
      → tx.to_address ≡ some (c ∷ to)
      → tx.gas_price ≡ some price
      → receipt_data.gas_used ≡ some used
      → receipt_data.logs ≡ some ls
      → All HasKey ls
      → get_internal_transactions W tx.transaction_hash ≡ ok is
      → get_contract_category cache (some (c ∷ to)) ≡ ok (some category)
      → get_contract W abi (c ∷ to) category s.contracts ≡ (ok k, known)
      → get_contract_events cache (some (W.contract_address k)) ≡ ok (some allowed)
      → let a = W.contract_address k in
        let es = get_transaction_events W category k receipt in
        let found = map index_of (relevant allowed a es) in
        process_partial W abi cache tx receipt_data receipt s ≡ (
          ok true,
          record {
            db =
                with_transaction tx receipt_data
                  (W.mul price used)
                  (keep (λ l. contains found l.log_index) ls)
                  is
                  (handle_events (some allowed) a (some h) es s.db).1;
            contracts = known;
          },
        )
  process_partial_saves tx receipt_data receipt c to h category k known allowed price used ls is s
        hash target priced gas logged keys traced listed made names =
      let a = W.contract_address k in
      let es = get_transaction_events W category k receipt in
      let found = map index_of (relevant allowed a es) in
      let d = (handle_events (some allowed) a (some h) es s.db).1 in
      process_partial-with_transaction tx receipt_data receipt c to category ls found s
        (record { db = d; contracts = known })
        (with_transaction tx receipt_data (W.mul price used)
          (keep (λ l. contains found l.log_index) ls) is d)
        target logged listed
        (contract_events_lem (c ∷ to) category tx receipt h k known allowed s hash made names)
        (handle_transaction-with_transaction tx receipt_data h price used ls is found d hash priced
          gas logged (All-keep HasKey (λ l. contains found l.log_index) ls keys) traced)
