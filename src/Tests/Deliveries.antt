-- ===== src/Tests/Deliveries.antt =====
-- A redelivered message, and transactions that do not call a configured contract.
use uzh_blockchain_data_coll.Base.{
  ℕ, ◌≡◌, refl, none, some, true, false, List, [], ◌∷◌, ◌++◌, map, list_eq, nat_eq, pair_eq,
  option_eq, if◌then◌else◌,
}
use uzh_blockchain_data_coll.Base.Text.{Str, str, lower}
use uzh_blockchain_data_coll.Errors.{ok}
use uzh_blockchain_data_coll.Model.{erc20}
use uzh_blockchain_data_coll.Model.Rows.{
  TransactionReceiptData, TransactionData, TransactionLogsData,
}
use uzh_blockchain_data_coll.Node.{get_internal_transactions}
use uzh_blockchain_data_coll.Parser.{
  config_cache, find_config, get_contract_category, get_contract_events, fill_config_cache,
  get_contract,
}
use uzh_blockchain_data_coll.Base.Dict.{lookup, insert, Dict}
use uzh_blockchain_data_coll.Processor.Handlers.{internal_row}
use uzh_blockchain_data_coll.Processor.Modes.{process_full, process_partial, is_empty}
use uzh_blockchain_data_coll.Processor.Replay.{process_full-process_full}
use uzh_blockchain_data_coll.Processor.Others.{
  IsStorable, found_indices, with_events, with_found, process_partial_events,
  process_partial_creates,
}
use uzh_blockchain_data_coll.Tests.Setting.{
  small_world, small_abi, a_config, a_transaction, a_receipt, small_cache, no_state, a_log,
  logged_receipt,
}

no_trace : get_internal_transactions small_world (some (str "0x11")) ≡ ok []
unfolding get_internal_transactions
no_trace = refl

process_full-process_full_example :
    let s1 =
      (process_full small_world small_abi small_cache
        (a_transaction (str "0x11"))
        logged_receipt
        tt
        no_state).1 in
    process_full small_world small_abi small_cache (a_transaction (str "0x11")) logged_receipt tt s1
    ≡ (
      ok true,
      record s1 {
        db = record (s1.db) {
          internal_transaction =
              s1.db.internal_transaction ++ map (internal_row (some (str "0x11"))) [];
        };
      },
    )
process_full-process_full_example =
    process_full-process_full small_world small_abi small_cache (a_transaction (str "0x11"))
      logged_receipt tt (str "0x11") 3 20 (a_log ∷ []) [] no_state refl refl refl refl
      (((str "0x11", 4), refl), tt) no_trace

-- A call of a contract that is not configured, with a log of one that is.
abbrev indirect : TransactionData ℕ
indirect = record (a_transaction (str "0x11")) { to_address = some (str "0xdd") }

abbrev foreign_log : TransactionLogsData
foreign_log = record a_log { address = some (str "0xee"); log_index = some 7 }

abbrev own_log : TransactionLogsData
own_log = record a_log { address = some (str "0xc0") }

abbrev both_logs : List TransactionLogsData
both_logs = foreign_log ∷ own_log ∷ []

abbrev indirect_receipt : TransactionReceiptData ℕ
indirect_receipt = record a_receipt { logs = some both_logs }

-- The creation of the configured contract.
abbrev creation : TransactionData ℕ
creation = record (a_transaction (str "0x11")) { to_address = none }

abbrev creation_receipt : TransactionReceiptData ℕ
creation_receipt = record indirect_receipt { contract_address = some (str "0xc0") }

storable :
    (tx : TransactionData ℕ) (r : TransactionReceiptData ℕ)
    → tx.transaction_hash ≡ some (str "0x11")
    → tx.gas_price ≡ some 3
    → r.gas_used ≡ some 20
    → r.logs ≡ some both_logs
    → IsStorable small_world small_abi small_cache tx r tt (str "0x11") 3 20 both_logs []
unfolding get_internal_transactions
storable tx r hash priced gas logged = record {
  hash = hash;
  priced = priced;
  gas = gas;
  logged = logged;
  keys = (((str "0x11", 7), refl), (((str "0x11", 4), refl), tt));
  traced = refl;
}

known_categories :
    (get_contract_category small_cache (some (str "0xdd")) ≡ ok none)
    × (get_contract_category small_cache (some (str "0xee")) ≡ ok none)
    × (get_contract_category small_cache (some (str "0xc0")) ≡ ok (some erc20))
    × (get_contract_events small_cache (some (str "0xc0")) ≡ ok (some (a_config.events)))
unfolding get_contract_category get_contract_events find_config config_cache fill_config_cache
    lookup insert list_eq nat_eq lower
known_categories = (refl, refl, refl, refl)

abbrev created : Dict Str Str
created = (str "0xc0", str "0xc0") ∷ []

made_contract :
    get_contract small_world small_abi (str "0xc0") erc20 [] ≡ (ok (str "0xc0"), created)
unfolding get_contract lookup insert lower
made_contract = refl

process_partial_events_example :
    let found = found_indices small_world erc20 (str "0xc0") tt (a_config.events) in
    let s' =
      with_events small_world erc20
        (str "0xc0")
        tt
        (a_config.events)
        (str "0x11")
        created
        no_state in
    process_partial small_world small_abi small_cache indirect indirect_receipt tt no_state ≡ (
      if is_empty found then (ok false, s') else (
        ok true,
        with_found small_world small_abi small_cache indirect indirect_receipt 60 both_logs [] found
            s',
      ))
process_partial_events_example =
    process_partial_events small_world small_abi small_cache indirect indirect_receipt tt
      (str "0x11") 3 20 both_logs [] (storable indirect indirect_receipt refl refl refl refl)
      (str "0xc0") erc20 (str "0xc0") created (a_config.events) no_state made_contract
      known_categories.3 b'0' (str "xdd") (some (str "0xee") ∷ []) [] refl known_categories.0 refl
      (known_categories.1, tt) tt known_categories.2

process_partial_creates_example :
    let found = found_indices small_world erc20 (str "0xc0") tt (a_config.events) in
    let s' =
      with_events small_world erc20
        (str "0xc0")
        tt
        (a_config.events)
        (str "0x11")
        created
        no_state in
    process_partial small_world small_abi small_cache creation creation_receipt tt no_state ≡ (
      ok true,
      with_found small_world small_abi small_cache creation creation_receipt 60 both_logs [] found
          s',
    )
process_partial_creates_example =
    process_partial_creates small_world small_abi small_cache creation creation_receipt tt
      (str "0x11") 3 20 both_logs [] (storable creation creation_receipt refl refl refl refl)
      (str "0xc0") erc20 (str "0xc0") created (a_config.events) no_state made_contract
      known_categories.3 b'0' (str "xc0") refl refl refl known_categories.2
