-- ===== src/Processor/Others.antt =====
-- What the processor of the mode partial saves for a transaction that does not call a configured
-- contract: one with events of a configured contract, and one that creates one.
use uzh_blockchain_data_coll.Base.{
  ℕ, Option, none, some, Bool, true, false, List, [], ◌∷◌, ◌++◌, map, keep, contains, All, ◌≡◌,
  refl, ◌∙◌, not, arith, nat_eq, option_eq, list_eq, pair_eq, if◌then◌else◌,
}
use uzh_blockchain_data_coll.Base.Dict.{Dict}
use uzh_blockchain_data_coll.Base.Text.{Str}
use uzh_blockchain_data_coll.Errors.{ok}
use uzh_blockchain_data_coll.Model.{ContractCategory}
use uzh_blockchain_data_coll.Model.Rows.{
  TransactionData, TransactionReceiptData, TransactionLogsData, InternalTransactionData,
}
use uzh_blockchain_data_coll.World.{World}
use uzh_blockchain_data_coll.Node.{get_internal_transactions}
use uzh_blockchain_data_coll.Events.{get_transaction_events}
use uzh_blockchain_data_coll.Parser.{
  ConfigCache, ContractAbi, get_contract, get_contract_category, get_contract_events,
}
use uzh_blockchain_data_coll.Processor.State.{State}
use uzh_blockchain_data_coll.Processor.Handlers.{handle_events}
use uzh_blockchain_data_coll.Processor.Creation.{handle_contract_creation_lem}
use uzh_blockchain_data_coll.Processor.Modes.{
  handle_address, handle_addresses, handle_contract_events, process_regular_contract_interaction,
  process_contract_creation, choose_partial, process_partial, log_addresses, is_empty,
}
use uzh_blockchain_data_coll.Processor.Tally.{relevant, index_of}
use uzh_blockchain_data_coll.Processor.Full.{HasKey}
use uzh_blockchain_data_coll.Processor.Partial.{handle_addresses_skips, handle_address_skips}
use uzh_blockchain_data_coll.Processor.Interaction.{
  All-keep, with_transaction, handle_transaction-with_transaction, contract_events_lem,
}

module _ (W : World) (category : ContractCategory) (k : W.Contract) (receipt : W.Receipt)
    (allowed : List Str) where
  -- The indices of the events with an allowed name and the contract's address.
  abbrev pub found_indices : List (Option ℕ)
  found_indices =
      map index_of
        (relevant allowed (W.contract_address k) (get_transaction_events W category k receipt))

  -- The state in which the events of a transaction are handled for this contract.
  abbrev pub with_events :
      Str → Dict Str W.Contract → State W.Float W.Contract → State W.Float W.Contract
  with_events h known s = record {
    db =
        (handle_events (some allowed) (W.contract_address k) (some h)
          (get_transaction_events W category k receipt) s.db).1;
    contracts = known;
  }

module _ (W : World) (abi : ContractAbi W.Abi) (cache : ConfigCache) where
  -- The state with the transaction and those of its logs that have these indices.
  abbrev pub with_found :
      TransactionData W.Float
      → TransactionReceiptData W.Float
      → W.Float
      → List TransactionLogsData
      → List (InternalTransactionData W.Float)
      → List (Option ℕ)
      → State W.Float W.Contract
      → State W.Float W.Contract
  with_found tx receipt_data fee ls is found s = record s {
    db =
        with_transaction W abi cache tx receipt_data fee (keep (λ l. contains found l.log_index) ls)
          is s.db;
  }

module _ (W : World) (abi : ContractAbi W.Abi) (cache : ConfigCache) (tx : TransactionData W.Float)
    (receipt_data : TransactionReceiptData W.Float) (receipt : W.Receipt) where
  -- The address is not that of a configured contract.
  abbrev pub IsUnknown : Option Str → Type 0
  IsUnknown o = get_contract_category cache o ≡ ok none

  handle_addresses-append :
      (as' bs : List (Option Str)) (s : State W.Float W.Contract)
      → All IsUnknown as'
      → handle_addresses W abi cache tx receipt (as' ++ bs) [] s
        ≡ handle_addresses W abi cache tx receipt bs [] s
  unfolding handle_addresses
  handle_addresses-append [] bs s h = refl
  handle_addresses-append (o ∷ as') bs s (h, hs) = ground (
    arith,
    handle_address_skips W abi cache tx receipt o s h,
    handle_addresses-append as' bs s hs,
  )

  -- The loop over the addresses, of which one is configured.
  handle_addresses-one :
      (as' bs : List (Option Str)) (a : Str) (category : ContractCategory) (found : List (Option ℕ))
      (s s' : State W.Float W.Contract)
      → All IsUnknown as'
      → All IsUnknown bs
      → get_contract_category cache (some a) ≡ ok (some category)
      → handle_contract_events W abi cache a category tx receipt s ≡ (ok found, s')
      → handle_addresses W abi cache tx receipt (as' ++ (some a ∷ bs)) [] s ≡ (ok found, s')
  unfolding handle_addresses handle_address
  handle_addresses-one as' bs a category found s s' before behind listed handled =
      handle_addresses-append as' (some a ∷ bs) s before
      ∙ ground
          (arith, listed, handled, handle_addresses_skips W abi cache tx receipt bs found s' behind)

  -- What storing the transaction needs: a hash, a gas price and the gas used, the keys of all logs,
  -- and a trace that can be read.
  pub record IsStorable (h : Str) (price used : W.Float) (ls : List TransactionLogsData)
      (is : List (InternalTransactionData W.Float)) : Type 0 where
    pub hash : tx.transaction_hash ≡ some h
    pub priced : tx.gas_price ≡ some price
    pub gas : receipt_data.gas_used ≡ some used
    pub logged : receipt_data.logs ≡ some ls
    pub keys : All HasKey ls
    pub traced : get_internal_transactions W tx.transaction_hash ≡ ok is

  module _ (h : Str) (price used : W.Float) (ls : List TransactionLogsData)
      (is : List (InternalTransactionData W.Float)) (storable : IsStorable h price used ls is) where
    process_partial_lem :
        (save : Bool) (found : List (Option ℕ)) (s s' : State W.Float W.Contract)
        → choose_partial W abi cache tx.to_address receipt_data.contract_address tx receipt_data
            receipt s
          ≡ (ok (save, found), s')
        → process_partial W abi cache tx receipt_data receipt s ≡ (
            if save
            then (ok true, with_found W abi cache tx receipt_data (W.mul price used) ls is found s')
            else (ok false, s'))
    unfolding process_partial
    process_partial_lem save found s s' chosen = ground (
      arith,
      chosen,
      handle_transaction-with_transaction W abi cache tx receipt_data h price used ls is found s'.db
          storable.hash storable.priced storable.gas storable.logged
          (All-keep HasKey (λ l. contains found l.log_index) ls storable.keys) storable.traced,
    )

    module _ (a : Str) (category : ContractCategory) (k : W.Contract) (known : Dict Str W.Contract)
        (allowed : List Str) (s : State W.Float W.Contract)
        (made : get_contract W abi a category s.contracts ≡ (ok k, known))
        (names : get_contract_events cache (some (W.contract_address k)) ≡ ok (some allowed)) where
      choose_partial_events :
          (c : ℕ) (to : Str) (before behind : List (Option Str))
          → tx.to_address ≡ some (c ∷ to)
          → IsUnknown (some (c ∷ to))
          → W.visit (map (λ l. l.address) ls) ≡ before ++ (some a ∷ behind)
          → All IsUnknown before
          → All IsUnknown behind
          → get_contract_category cache (some a) ≡ ok (some category)
          → choose_partial W abi cache tx.to_address receipt_data.contract_address tx receipt_data
              receipt s
            ≡ (
              ok (
                not (is_empty (found_indices W category k receipt allowed)),
                (found_indices W category k receipt allowed),
              ),
              (with_events W category k receipt allowed h known s),
            )
      unfolding choose_partial process_regular_contract_interaction log_addresses
      choose_partial_events c to before behind target unknown visited first last listed =
          let one =
            handle_addresses-one before behind a category
              (found_indices W category k receipt allowed) s
              (with_events W category k receipt allowed h known s) first last listed
              (contract_events_lem W abi cache a category tx receipt h k known allowed s
                storable.hash made names) in
          ground (arith, target, unknown, storable.logged, visited, one)

      -- A transaction that can be stored, to a contract that is not configured, whose logs'
      -- addresses hold exactly one configured one: in the mode partial the events are handled
      -- for this contract and its allowed event names; with an event of an allowed name and the
      -- contract's address the transaction is stored with the logs of these events, and without
      -- one it is neither stored nor counted as processed.
      pub process_partial_events :
          (c : ℕ) (to : Str) (before behind : List (Option Str))
          → tx.to_address ≡ some (c ∷ to)
          → IsUnknown (some (c ∷ to))
          → W.visit (map (λ l. l.address) ls) ≡ before ++ (some a ∷ behind)
          → All IsUnknown before
          → All IsUnknown behind
          → get_contract_category cache (some a) ≡ ok (some category)
          → let found = found_indices W category k receipt allowed in
            let s' = with_events W category k receipt allowed h known s in
            process_partial W abi cache tx receipt_data receipt s ≡ (
              if is_empty found then (ok false, s') else (
                ok true,
                with_found W abi cache tx receipt_data (W.mul price used) ls is found s',
              ))
      process_partial_events c to before behind target unknown visited first last listed =
          process_partial_lem (not (is_empty (found_indices W category k receipt allowed)))
            (found_indices W category k receipt allowed) s
            (with_events W category k receipt allowed h known s)
            (choose_partial_events c to before behind target unknown visited first last listed)
          ∙ ground arith

      choose_partial_creates :
          (c : ℕ) (b : Str)
          → a ≡ c ∷ b
          → tx.to_address ≡ none
          → receipt_data.contract_address ≡ some a
          → get_contract_category cache (some a) ≡ ok (some category)
          → choose_partial W abi cache tx.to_address receipt_data.contract_address tx receipt_data
              receipt s
            ≡ (
              ok (true, (found_indices W category k receipt allowed)),
              (with_events W category k receipt allowed h known s),
            )
      unfolding choose_partial process_contract_creation handle_contract_events
      choose_partial_creates c b whole target created listed =
          let handled =
            contract_events_lem W abi cache a category tx receipt h k known allowed s storable.hash
              made names in
          ground (
            arith,
            whole,
            target,
            created,
            listed,
            made,
            handled,
            handle_contract_creation_lem W k category (record s { contracts = known }),
          )

      -- The creation of a configured contract, by a transaction that can be stored, is processed
      -- in the mode partial: its events are handled for the contract, and the transaction is
      -- stored with the logs of the events with an allowed name and the contract's address.
      -- Nothing else is changed; so no row is stored for the contract itself.
      pub process_partial_creates :
          (c : ℕ) (b : Str)
          → a ≡ c ∷ b
          → tx.to_address ≡ none
          → receipt_data.contract_address ≡ some a
          → get_contract_category cache (some a) ≡ ok (some category)
          → let found = found_indices W category k receipt allowed in
            let s' = with_events W category k receipt allowed h known s in
            process_partial W abi cache tx receipt_data receipt s
            ≡ (ok true, with_found W abi cache tx receipt_data (W.mul price used) ls is found s')
      process_partial_creates c b whole target created listed =
          process_partial_lem true (found_indices W category k receipt allowed) s
            (with_events W category k receipt allowed h known s)
            (choose_partial_creates c b whole target created listed)
