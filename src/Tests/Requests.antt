-- ===== src/Tests/Requests.antt =====
-- Requests without a try, the generator of Uniswap pairs, plots, contexts and HexBytes.
use uzh_blockchain_data_coll.Base.{
  ℕ, zero, suc, none, some, Option, true, List, [], ◌∷◌, ◌≡◌, refl, All, map, list_eq, nat_eq,
  option_eq, false,
}
use uzh_blockchain_data_coll.Base.Text.{Str, str, lower}
use uzh_blockchain_data_coll.Errors.{
  Exc, kafka_connection, Result, ok, err, request_timeout, type_error, key_error, M,
  partitions_empty,
}
use uzh_blockchain_data_coll.Config.{check_contracts}
use uzh_blockchain_data_coll.Config.EventNames.{IsEventName}
use uzh_blockchain_data_coll.Events.Types.{swap_pair, event_name}
use uzh_blockchain_data_coll.Parser.{ContractConfig}
use uzh_blockchain_data_coll.Node.Requests.{Provider, make_request}
use uzh_blockchain_data_coll.Pairs.{Pair, Entry, pair_entries, read_contracts}
use uzh_blockchain_data_coll.Pairs.Accepted.{pair_contract, pair_entries_accepted}
use uzh_blockchain_data_coll.Db.Tables.{LogRow}
use uzh_blockchain_data_coll.Query.Plot.{plot_others}
use uzh_blockchain_data_coll.Base.Dict.{Dict}
use uzh_blockchain_data_coll.Kafka.Connect.{connect}
use uzh_blockchain_data_coll.Collector.Context.{
  Connections, Answers, with_collector, with_collector-left_open,
}
use uzh_blockchain_data_coll.Model.Hexbytes.{
  Value, item, items, hex_bytes, text, transform_hexbytes, IsPlain, keys,
  transform_hexbytes-IsPlain,
}
use uzh_blockchain_data_coll.Tests.Setting.{small_world}

-- The first round of every request times out.
abbrev once_late : {A : Type 0} → Result A → ℕ → Result A
once_late r zero = err request_timeout
once_late r (suc k) = r

abbrev late : Provider
late = record {
  trace_block = λ i. once_late (small_world.trace_block i);
  trace_replay = λ h. once_late (small_world.trace_replay h);
}

-- Without a try there is no answer to subscript.
no_tries : make_request 0 (late.trace_block 1) ≡ err type_error
unfolding make_request
no_tries = refl

abbrev a_pair : Pair
a_pair = record { id = str "0xd0"; token0_symbol = str "USDC"; token1_symbol = str "WETH" }

swaps-IsEventName : All IsEventName (str "SwapPairEvent" ∷ [])
unfolding event_name
swaps-IsEventName = ((swap_pair [] [] 0 0 0 0, refl), tt)

pair_entries_accepted_example :
    (cs : List ContractConfig) × (read_contracts
        (pair_entries (str "SwapPairEvent" ∷ []) (a_pair ∷ []))
      ≡ ok cs)
    × (check_contracts cs ≡ ok tt)
    × (cs ≡ map (pair_contract (str "SwapPairEvent" ∷ [])) (a_pair ∷ []))
pair_entries_accepted_example =
    pair_entries_accepted (str "SwapPairEvent" ∷ []) (a_pair ∷ []) swaps-IsEventName

-- A log of the pair, and one of a factory, for which there is no colour.
abbrev log_of : Str → LogRow
log_of address = record {
  transaction_hash = some (str "0x11");
  address = some address;
  log_index = some 0;
  log_data = none;
  removed = none;
  topics = none;
}

abbrev factory : Entry
factory = record {
  address = str "0xF0";
  symbol = str "Factory";
  category = str "UniSwapV2Factory";
  events = [];
}

plot_pair :
    plot_others (pair_entries [] (a_pair ∷ [])) (log_of (str "0xd0") ∷ log_of (str "0xd0") ∷ [])
    ≡ ok (
        record {
          symbol = str "USDC-WETH";
          n_logs = 2;
          color = str "lightskyblue";
          label = str "UniSwapV2Pair";
        }
        ∷ [])
unfolding plot_others pair_entries list_eq nat_eq option_eq lower
plot_pair = refl

plot_factory : plot_others (factory ∷ []) (log_of (str "0xf0") ∷ []) ≡ err key_error
unfolding plot_others list_eq nat_eq option_eq lower
plot_factory = refl

-- A body that stops the Kafka client itself and raises, as a consumer's run does at its end.
abbrev run_dry : M Connections (Unit {0})
run_dry c = (err partitions_empty, record c { kafka = false })

-- The cluster is there at the second start of the client; everything else succeeds.
abbrev second_start : ℕ → Option Exc
second_start zero = some kafka_connection
second_start (suc i) = none

abbrev late_cluster : Answers
late_cluster = record { start = second_start; give_up = none; db = ok tt; stop = none }

with_collector-left_open_example :
    (with_collector late_cluster run_dry (record { kafka = false; postgres = false })).1
    ≡ record { kafka = false; postgres = true }
unfolding connect
with_collector-left_open_example = with_collector-left_open late_cluster run_dry (λ c. refl)

-- A block's hash and uncles as web3 gives them, with the bytes themselves for their text.
abbrev raw_values : Dict Str (Value ℕ)
raw_values =
    (str "hash", item (hex_bytes (1 ∷ 2 ∷ [])))
    ∷ (str "uncles", items (hex_bytes (3 ∷ []) ∷ text (str "0x04") ∷ []))
    ∷ []

transform_hexbytes-IsPlain_example :
    All (λ kv. IsPlain kv.1) (transform_hexbytes (λ b. b) raw_values)
    × (keys (transform_hexbytes (λ b. b) raw_values) ≡ keys raw_values)
    × (transform_hexbytes (λ b. b) (transform_hexbytes (λ b. b) raw_values)
        ≡ transform_hexbytes (λ b. b) raw_values)
transform_hexbytes-IsPlain_example = transform_hexbytes-IsPlain (λ b. b) raw_values
