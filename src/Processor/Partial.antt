-- ===== src/Processor/Partial.antt =====
-- What the processor of the mode partial leaves alone.
use uzh_blockchain_data_coll.Base.{
  ℕ, Option, none, some, false, List, [], ◌∷◌, map, All, ◌≡◌, refl, arith, append-nil,
}
use uzh_blockchain_data_coll.Base.Text.{Str}
use uzh_blockchain_data_coll.Errors.{ok}
use uzh_blockchain_data_coll.Model.Rows.{
  TransactionData, TransactionReceiptData, TransactionLogsData,
}
use uzh_blockchain_data_coll.World.{World}
use uzh_blockchain_data_coll.Parser.{ConfigCache, ContractAbi, get_contract_category}
use uzh_blockchain_data_coll.Processor.State.{State}
use uzh_blockchain_data_coll.Processor.Modes.{
  handle_address, handle_addresses, process_regular_contract_interaction, choose_partial,
  process_partial, log_addresses,
}

module _ (W : World) (abi : ContractAbi W.Abi) (cache : ConfigCache) (tx : TransactionData W.Float)
    (receipt : W.Receipt) where
  pub handle_address_skips :
      (o : Option Str) (s : State W.Float W.Contract)
      → get_contract_category cache o ≡ ok none
      → handle_address W abi cache tx receipt o s ≡ (ok [], s)
  unfolding handle_address
  handle_address_skips none s h = ground arith
  handle_address_skips (some a) s h = ground arith

  pub handle_addresses_skips :
      (as' : List (Option Str)) (found : List (Option ℕ)) (s : State W.Float W.Contract)
      → All (λ o. get_contract_category cache o ≡ ok none) as'
      → handle_addresses W abi cache tx receipt as' found s ≡ (ok found, s)
  unfolding handle_addresses
  handle_addresses_skips [] found s h = refl
  handle_addresses_skips (o ∷ as') found s (h, hs) =
      ground
        (arith, handle_address_skips o s h, append-nil found, handle_addresses_skips as' found s hs)

  -- A transaction to a contract that is not configured, none of whose logs comes from a
  -- configured contract, is not processed in the mode partial, and nothing is changed.
  pub process_partial_skips :
      (receipt_data : TransactionReceiptData W.Float) (c : ℕ) (to : Str)
      (ls : List TransactionLogsData) (s : State W.Float W.Contract)
      → tx.to_address ≡ some (c ∷ to)
      → receipt_data.logs ≡ some ls
      → get_contract_category cache (some (c ∷ to)) ≡ ok none
      → All (λ o. get_contract_category cache o ≡ ok none) (W.visit (map (λ l. l.address) ls))
      → process_partial W abi cache tx receipt_data receipt s ≡ (ok false, s)
  unfolding process_partial choose_partial process_regular_contract_interaction log_addresses
  process_partial_skips receipt_data c to ls s target logged unknown others =
      ground (arith, handle_addresses_skips (W.visit (map (λ l. l.address) ls)) [] s others)
