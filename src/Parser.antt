-- ===== src/Parser.antt =====
-- app/web3/parser.py: the configured contracts, by address, and the contract instances.
pub mod Lookup
use uzh_blockchain_data_coll.Base.{
  Option, none, some, Bool, true, false, List, [], ◌∷◌, ◌||◌, ◌==◌, list_eq, nat_eq, if◌then◌else◌,
}
use uzh_blockchain_data_coll.Base.Dict.{Dict, lookup, insert}
use uzh_blockchain_data_coll.Base.Text.{Str, str, lower}
use uzh_blockchain_data_coll.Errors.{M, Result, ok, err, ◌>>=◌, pure, lift, attribute_error}
use uzh_blockchain_data_coll.Model.{
  ContractCategory, unknown, erc20, erc721, erc1155, uni_swap_v2_factory, uni_swap_v2_pair,
  category_value,
}
use uzh_blockchain_data_coll.Model.Rows.{TokenContractData, PairContractData}
use uzh_blockchain_data_coll.World.{World}

-- app/config.py, `ContractConfig`
pub record ContractConfig : Type 0 where
  pub address : Str
  pub symbol : Str
  pub category : ContractCategory
  pub events : List Str

-- app/model/abi.py, `ContractABI`
pub record ContractAbi (Abi : Type 0) : Type 0 where
  pub erc20_abi : Abi
  pub erc721_abi : Abi
  pub erc1155_abi : Abi
  pub factory_abi : Abi
  pub pair_abi : Abi

-- `_contracts_config_cache`
abbrev pub ConfigCache : Type 0
ConfigCache = Dict Str ContractConfig

-- The loop of `__init__`, over the contracts in the order in which they are visited.
unfoldable pub fill_config_cache : List ContractConfig → ConfigCache → ConfigCache
fill_config_cache [] cache = cache
fill_config_cache (c ∷ cs) cache = fill_config_cache cs (insert (lower c.address) c cache)

unfoldable pub config_cache : List ContractConfig → ConfigCache
unfolding fill_config_cache
config_cache contracts = fill_config_cache contracts []

-- What `.get(contract_address.lower())` finds; `None` has no `lower`.
unfoldable pub find_config : ConfigCache → Option Str → Result (Option ContractConfig)
find_config cache none = err attribute_error
find_config cache (some a) = ok (lookup (lower a) cache)

unfoldable pub get_contract_category : ConfigCache → Option Str → Result (Option ContractCategory)
unfolding find_config
get_contract_category cache a = elim (find_config cache a) [
  | ok (some c) ↦ ok (some c.category)
  | ok none ↦ ok none
  | err e ↦ err e
]

unfoldable pub get_contract_events : ConfigCache → Option Str → Result (Option (List Str))
unfolding find_config
get_contract_events cache a = elim (find_config cache a) [
  | ok (some c) ↦ ok (some c.events)
  | ok none ↦ ok none
  | err e ↦ err e
]

unfoldable pub is_known_contract_address : ConfigCache → Option Str → Result Bool
unfolding get_contract_category
is_known_contract_address cache a = elim (get_contract_category cache a) [
  | ok (some c) ↦ ok true
  | ok none ↦ ok false
  | err e ↦ err e
]

unfoldable pub get_contract_abi : {Abi : Type 0} → ContractAbi Abi → ContractCategory → Option Abi
get_contract_abi abi erc20 = some abi.erc20_abi
get_contract_abi abi erc721 = some abi.erc721_abi
get_contract_abi abi erc1155 = some abi.erc1155_abi
get_contract_abi abi uni_swap_v2_pair = some abi.pair_abi
get_contract_abi abi uni_swap_v2_factory = some abi.factory_abi
get_contract_abi abi unknown = none

module _ (W : World) where
  -- `get_contract`, over `_contracts_cache`
  unfoldable pub get_contract :
      ContractAbi W.Abi → Str → ContractCategory → M (Dict Str W.Contract) W.Contract
  unfolding get_contract_abi
  get_contract abi a category cache = elim (lookup (lower a) cache) [
    | some contract ↦ (ok contract, cache)
    | none ↦
        let contract = W.eth_contract a (get_contract_abi abi category) in
        (ok contract, insert (lower a) contract cache)
  ]

  token_data : W.Contract → ContractCategory → Result (Option (TokenContractData W.Float))
  token_data contract category = elim (W.call_text contract (str "symbol")) [
    | err e ↦ err e
    | ok symbol ↦ elim (W.call_text contract (str "name")) [
      | err e ↦ err e
      | ok name ↦ elim (W.call_number contract (str "decimals")) [
        | err e ↦ err e
        | ok decimals ↦ elim (W.call_float contract (str "totalSupply")) [
          | err e ↦ err e
          | ok total_supply ↦ ok (
              some (record {
                address = some (W.contract_address contract);
                symbol = symbol;
                name = name;
                decimals = decimals;
                total_supply = total_supply;
                token_category = some (category_value category);
              }))
        ]
      ]
    ]
  ]

  unfoldable pub get_token_contract_data :
      W.Contract → ContractCategory → Result (Option (TokenContractData W.Float))
  unfolding token_data category_value
  get_token_contract_data contract erc20 = token_data contract erc20
  get_token_contract_data contract erc721 = token_data contract erc721
  get_token_contract_data contract erc1155 = ok (
      some (record {
        address = some (W.contract_address contract);
        symbol = none;
        name = none;
        decimals = none;
        total_supply = none;
        token_category = some (category_value erc1155);
      }))
  get_token_contract_data contract _ = ok none

  pair_data : W.Contract → Result (Option PairContractData)
  pair_data contract = elim (W.call_text contract (str "token0")) [
    | err e ↦ err e
    | ok token0 ↦ elim (W.call_text contract (str "token1")) [
      | err e ↦ err e
      | ok token1 ↦ elim (W.call_number contract (str "reserve0")) [
        | err e ↦ err e
        | ok reserve0 ↦ elim (W.call_number contract (str "reserve1")) [
          | err e ↦ err e
          | ok reserve1 ↦ elim (W.call_text contract (str "factory")) [
            | err e ↦ err e
            | ok factory ↦ ok (
                some (record {
                  address = some (W.contract_address contract);
                  token0 = token0;
                  token1 = token1;
                  reserve0 = reserve0;
                  reserve1 = reserve1;
                  factory = factory;
                }))
          ]
        ]
      ]
    ]
  ]

  unfoldable pub get_pair_contract_data :
      W.Contract → ContractCategory → Result (Option PairContractData)
  unfolding pair_data
  get_pair_contract_data contract uni_swap_v2_pair = pair_data contract
  get_pair_contract_data contract _ = ok none
