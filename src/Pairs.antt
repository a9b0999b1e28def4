-- ===== src/Pairs.antt =====
-- etc/get_top_uniswap_pairs.py: the contracts that the script prints for a configuration.
pub mod Accepted
use uzh_blockchain_data_coll.Base.{
  ℕ, Option, none, some, true, false, List, [], ◌∷◌, ◌++◌, ◌==◌, list_eq, nat_eq, map,
  if◌then◌else◌,
}
use uzh_blockchain_data_coll.Base.Text.{Str, str}
use uzh_blockchain_data_coll.Errors.{Result, ok, err, value_error, other}
use uzh_blockchain_data_coll.Model.{
  ContractCategory, unknown, erc20, erc721, erc1155, uni_swap_v2_factory, uni_swap_v2_pair,
  category_value,
}
use uzh_blockchain_data_coll.Main.{member_of}
use uzh_blockchain_data_coll.Parser.{ContractConfig}

-- An element of `query_result["data"]["pairs"]`, with the fields that the script reads.
pub record Pair : Type 0 where
  pub id : Str
  pub token0_symbol : Str
  pub token1_symbol : Str

-- An element of the printed list.
pub record Entry : Type 0 where
  pub address : Str
  pub symbol : Str
  pub category : Str
  pub events : List Str

abbrev pub symbol_prefix : Str
symbol_prefix = str "UniSwap V2 Pair "

-- The body of the loop.
unfoldable pub pair_entry : List Str → Pair → Entry
pair_entry events pair = record {
  address = pair.id;
  symbol = symbol_prefix ++ (pair.token0_symbol ++ (b'-' ∷ pair.token1_symbol));
  category = str "UniSwapV2Pair";
  events = events;
}

unfoldable pub pair_entries : List Str → List Pair → List Entry
unfolding pair_entry
pair_entries events pairs = map (pair_entry events) pairs

-- `run_query`: the status code of the answer and its JSON, or another exception than the program's
-- own.
unfoldable pub run_query : {A : Type 0} → ℕ → A → Result A
run_query status_code json = if status_code == 200 then ok json else err (other status_code)

-- `main`, from the answer to the query; without one it exits with the code 1.
unfoldable pub generate : List Str → Option (List Pair) → Result (List Entry)
unfolding pair_entries
generate events none = err (other 1)
generate events (some pairs) = ok (pair_entries events pairs)

-- app/config.py reads an entry of the configuration file as a `ContractConfig`: the category is the
-- first member of the enumeration with this value.
abbrev pub categories : List ContractCategory
categories = unknown ∷ erc20 ∷ erc721 ∷ erc1155 ∷ uni_swap_v2_factory ∷ uni_swap_v2_pair ∷ []

unfoldable pub read_contract : Entry → Result ContractConfig
unfolding member_of category_value
read_contract e = elim (member_of categories category_value categories e.category) [
  | err x ↦ err value_error
  | ok c ↦ ok (record { address = e.address; symbol = e.symbol; category = c; events = e.events })
]

unfoldable pub read_contracts : List Entry → Result (List ContractConfig)
unfolding read_contract
read_contracts [] = ok []
read_contracts (e ∷ es) = elim (read_contract e) [
  | err x ↦ err x
  | ok c ↦ elim (read_contracts es) [ err x ↦ err x | ok cs ↦ ok (c ∷ cs) ]
]

-- The whole script: the query, and the list that is printed.
unfoldable pub run_script : List Str → ℕ → Option (List Pair) → Result (List Entry)
unfolding run_query generate
run_script events status_code answer = elim (run_query status_code answer) [
  | err e ↦ err e
  | ok pairs ↦ generate events pairs
]
