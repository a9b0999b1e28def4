-- ===== src/Tests/Transactions.antt =====
-- The parser, the processors and the consumer on concrete inputs.
use uzh_blockchain_data_coll.Base.{
  ℕ, ◌≤◌, ◌≡◌, ◌⊎◌, ◌↔◌, ◌++◌, refl, none, some, List, [], ◌∷◌, ◌||◌, ◌&&◌, ◌==◌, not, map, list_eq,
  nat_eq, pair_eq,
}
use uzh_blockchain_data_coll.Base.Int.{pos, int_eq}
use uzh_blockchain_data_coll.Base.Text.{Str, str}
use uzh_blockchain_data_coll.Errors.{Exc, ok, partitions_empty}
use uzh_blockchain_data_coll.Model.{full, partial, log_filter}
use uzh_blockchain_data_coll.Collector.{encode_kafka_event, decode_kafka_event}
use uzh_blockchain_data_coll.Db.Tables.{supply_key}
use uzh_blockchain_data_coll.Db.Table.{has_key}
use uzh_blockchain_data_coll.Redis.Memory.{memory_set, memory_set-IsLawful}
use uzh_blockchain_data_coll.Collector.Codec.{decode-encode}
use uzh_blockchain_data_coll.Consumer.Ends.{Handles, Breaks, start_consuming_data-ends}
use uzh_blockchain_data_coll.Consumer.LogFilter.{start_consuming_data-log_filter}
use uzh_blockchain_data_coll.Processor.Handlers.{handle_events}
use uzh_blockchain_data_coll.Processor.Tally.{relevant, index_of, last_of, store_all}
use uzh_blockchain_data_coll.Processor.Supply.{
  supply_change, reserve0_change, reserve1_change, put_supply, put_liquidity, is_from,
  handle_events_lem, handle_events_saves,
}
use uzh_blockchain_data_coll.Consumer.{Event, DataConsumer, start_consuming, start_consuming_data}
use uzh_blockchain_data_coll.Consumer.Counters.{Stepped, start_consuming-Stepped}
use uzh_blockchain_data_coll.Tests.Setting.{
  small_cache, no_state, small_world, no_rows, small_abi, a_config, some_events, a_transaction,
  a_receipt,
}

abbrev allowed_names : List Str
allowed_names = a_config.events

handle_events_example :
    let sel = relevant allowed_names (str "0xC0") some_events in
    let d = store_all (str "0x11") sel no_rows in
    handle_events (some allowed_names) (str "0xC0") (some (str "0x11")) some_events no_rows ≡ (
      ok (map index_of sel),
      record d {
        contract_supply_change =
            put_supply
              (str "0x11")
              (supply_change sel)
              (last_of none some_events)
              d.contract_supply_change;
        pair_liquidity_change =
            put_liquidity
              (str "0xC0")
              (str "0x11")
              (reserve0_change sel)
              (reserve1_change sel)
              d.pair_liquidity_change;
      },
    )
handle_events_example =
    handle_events_lem (str "0xC0") (str "0x11") allowed_names some_events no_rows

handle_events_saves_example :
    let (r, db') =
      handle_events (some allowed_names) (str "0xC0") (some (str "0x11")) some_events no_rows in
    let sel = relevant allowed_names (str "0xC0") some_events in
    (r ≡ ok (map index_of sel))
    × (has_key supply_key (str "0xC0", str "0x11") db'.contract_supply_change ≡ (
        has_key supply_key (str "0xC0", str "0x11") no_rows.contract_supply_change
        || (not (supply_change sel == pos 0) && is_from (str "0xC0") (last_of none some_events))))
handle_events_saves_example =
    handle_events_saves (str "0xC0") (str "0x11") allowed_names some_events no_rows

abbrev two_messages : List Event
two_messages =
    record { partition = 0; value = encode_kafka_event (str "0x11") full }
    ∷ record { partition = 1; value = encode_kafka_event (str "0x12") partial }
    ∷ []

abbrev fresh_consumer : DataConsumer small_world memory_set small_abi small_cache
fresh_consumer = record {
  processor = no_state;
  redis = (0, pos 1) ∷ (1, pos 1) ∷ [];
  tx_hash = none;
  n_consumed_txs = 0;
  n_processed_txs = 0;
}

start_consuming-Stepped_example :
    (k : ℕ) × (k ≤ 2)
    × Stepped small_world memory_set memory_set-IsLawful small_abi small_cache fresh_consumer
        (start_consuming small_world memory_set small_abi small_cache two_messages fresh_consumer).1
        k
start_consuming-Stepped_example =
    start_consuming-Stepped small_world memory_set memory_set-IsLawful small_abi small_cache
      two_messages fresh_consumer

abbrev filter_message : Event
filter_message = record { partition = 0; value = encode_kafka_event (str "0x11") log_filter }

filter_message_decodes : decode_kafka_event filter_message.value ≡ ok (log_filter, str "0x11")
unfolding nat_eq
filter_message_decodes = decode-encode (str "0x11") log_filter refl

start_consuming_data-log_filter_example :
    let (code, c') =
      start_consuming_data small_world memory_set small_abi small_cache
        (filter_message ∷ two_messages)
        fresh_consumer in
    (code ≡ 1) × (c'.processor ≡ no_state) × (c'.n_consumed_txs ≡ 1) × (c'.n_processed_txs ≡ 0)
start_consuming_data-log_filter_example =
    start_consuming_data-log_filter small_world memory_set small_abi small_cache filter_message
      two_messages fresh_consumer (str "0x11") (a_transaction (str "0x11")) a_receipt tt
      filter_message_decodes refl refl

start_consuming_data-ends_example :
    let es = two_messages ++ (filter_message ∷ []) in
    let (code, c') =
      start_consuming_data small_world memory_set small_abi small_cache es fresh_consumer in
    (Handles small_world memory_set small_abi small_cache es fresh_consumer c' × (code ≡ 0))
    ⊎ ((x : Exc) × Breaks small_world memory_set small_abi small_cache es fresh_consumer c' x
        × ((code ≡ 0) ↔ (x ≡ partitions_empty))
        × (code ≤ 1))
start_consuming_data-ends_example =
    start_consuming_data-ends small_world memory_set small_abi small_cache
      (two_messages ++ (filter_message ∷ [])) fresh_consumer
