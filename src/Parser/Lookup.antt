-- ===== src/Parser/Lookup.antt =====
-- The configured contracts are found by their addresses, in any case of their letters.
use uzh_blockchain_data_coll.Base.{
  Option, none, some, List, [], ◌∷◌, ◌≡◌, refl, ap, arith, ◌==◌, list_eq, nat_eq, if◌then◌else◌,
}
use uzh_blockchain_data_coll.Base.Dict.{lookup, insert, lookup-insert}
use uzh_blockchain_data_coll.Base.Text.{Str, lower, lower-lower}
use uzh_blockchain_data_coll.Errors.{ok}
use uzh_blockchain_data_coll.Parser.{
  ContractConfig, ConfigCache, fill_config_cache, config_cache, find_config, get_contract_category,
  get_contract_events,
}

-- The last of the contracts that has this address up to the case of letters, else the one given.
unfoldable pub last_match :
    Str → List ContractConfig → Option ContractConfig → Option ContractConfig
last_match a [] found = found
last_match a (c ∷ cs) found = last_match a cs (if lower a == lower c.address then some c else found)

fill_config_cache_lem :
    (cs : List ContractConfig) (cache : ConfigCache) (a : Str)
    → lookup (lower a) (fill_config_cache cs cache) ≡ last_match a cs (lookup (lower a) cache)
unfolding fill_config_cache last_match
fill_config_cache_lem [] cache a = refl
fill_config_cache_lem (c ∷ cs) cache a = ground (
  arith,
  fill_config_cache_lem cs (insert (lower c.address) c cache) a,
  lookup-insert (lower a) (lower c.address) c cache,
)

-- The parser finds for an address the last configured contract with this address up to the case
-- of letters, and nothing if there is none.
pub find_config-config_cache :
    (cs : List ContractConfig) (a : Str)
    → find_config (config_cache cs) (some a) ≡ ok (last_match a cs none)
unfolding find_config config_cache lookup
find_config-config_cache cs a = ap ok (fill_config_cache_lem cs [] a)

-- The case of an address's letters changes neither the category nor the events found.
pub find_config-lower :
    (cache : ConfigCache) (a : Str)
    → (get_contract_category cache (some (lower a)) ≡ get_contract_category cache (some a))
      × (get_contract_events cache (some (lower a)) ≡ get_contract_events cache (some a))
unfolding get_contract_category get_contract_events find_config
find_config-lower cache a = (ground (arith, lower-lower a), ground (arith, lower-lower a))
