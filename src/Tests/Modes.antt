-- ===== src/Tests/Modes.antt =====
-- The processors of the modes full and partial on concrete inputs.
use uzh_blockchain_data_coll.Base.{
  ◌≡◌, refl, some, true, [], ◌∷◌, map, list_eq, nat_eq, pair_eq, keep, contains, option_eq,
}
use uzh_blockchain_data_coll.Base.Int.{int_eq}
use uzh_blockchain_data_coll.Base.Text.{Str, str, lower}
use uzh_blockchain_data_coll.Errors.{ok}
use uzh_blockchain_data_coll.Model.{erc20}
use uzh_blockchain_data_coll.Db.Tables.{transaction_key}
use uzh_blockchain_data_coll.Db.Table.{insert_row}
use uzh_blockchain_data_coll.Parser.{
  config_cache, find_config, get_contract_category, get_contract_events, fill_config_cache,
  get_contract,
}
use uzh_blockchain_data_coll.Node.{get_internal_transactions}
use uzh_blockchain_data_coll.Processor.Full.{put_logs, saved_row, process_full_saves}
use uzh_blockchain_data_coll.Processor.Modes.{process_full, process_partial}
use uzh_blockchain_data_coll.Base.Dict.{lookup, insert, Dict}
use uzh_blockchain_data_coll.Processor.Handlers.{handle_events}
use uzh_blockchain_data_coll.Processor.Tally.{relevant, index_of}
use uzh_blockchain_data_coll.Tests.Setting.{
  small_world, no_rows, small_abi, a_config, a_transaction, small_cache, no_state, a_log,
  logged_receipt,
}
use uzh_blockchain_data_coll.Events.{get_transaction_events}
use uzh_blockchain_data_coll.Processor.Interaction.{with_transaction, process_partial_saves}

no_internal : get_internal_transactions small_world (some (str "0x11")) ≡ ok []
unfolding get_internal_transactions
no_internal = refl

process_full_saves_example :
    process_full small_world small_abi small_cache
      (a_transaction (str "0x11"))
      logged_receipt
      tt
      no_state
    ≡ (
      ok true,
      record no_state {
        db = record no_rows {
          transaction =
              (insert_row transaction_key
                (saved_row small_world small_abi small_cache
                  (a_transaction (str "0x11"))
                  logged_receipt
                  60)
                []).1;
          transaction_logs = put_logs (a_log ∷ []) [];
          internal_transaction = [];
        };
      },
    )
process_full_saves_example =
    process_full_saves small_world small_abi small_cache (a_transaction (str "0x11")) logged_receipt
      tt (str "0x11") 3 20 (a_log ∷ []) [] no_state refl refl refl refl
      (((str "0x11", 4), refl), tt) no_internal

issuer :
    (get_contract_category small_cache (some (str "0xc0")) ≡ ok (some erc20))
    × (get_contract_events small_cache (some (str "0xc0")) ≡ ok (some (a_config.events)))
unfolding get_contract_category get_contract_events find_config config_cache fill_config_cache
    lookup insert list_eq nat_eq lower
issuer = (refl, refl)

abbrev known_contracts : Dict Str Str
known_contracts = (str "0xc0", str "0xc0") ∷ []

made_contract :
    get_contract small_world small_abi (str "0xc0") erc20 [] ≡ (ok (str "0xc0"), known_contracts)
unfolding get_contract lookup insert lower
made_contract = refl

process_partial_saves_example :
    let es = get_transaction_events small_world erc20 (str "0xc0") tt in
    let found = map index_of (relevant (a_config.events) (str "0xc0") es) in
    process_partial small_world small_abi small_cache
      (a_transaction (str "0x11"))
      logged_receipt
      tt
      no_state
    ≡ (
      ok true,
      record {
        db =
            with_transaction small_world small_abi small_cache
              (a_transaction (str "0x11"))
              logged_receipt
              60
              (keep (λ l. contains found l.log_index) (a_log ∷ []))
              []
              (handle_events
                (some (a_config.events))
                (str "0xc0")
                (some (str "0x11"))
                es
                no_rows).1;
        contracts = known_contracts;
      },
    )
process_partial_saves_example =
    process_partial_saves small_world small_abi small_cache (a_transaction (str "0x11"))
      logged_receipt tt b'0' (str "xc0") (str "0x11") erc20 (str "0xc0") known_contracts
      (a_config.events) 3 20 (a_log ∷ []) [] no_state refl refl refl refl refl
      (((str "0x11", 4), refl), tt) no_internal issuer.0 made_contract issuer.1
