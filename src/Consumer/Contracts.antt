-- ===== src/Consumer/Contracts.antt =====
-- app/consumer/__init__.py: the contracts of all configurations, as the set that the parser gets, and
-- `__eq__` and `__hash__` of a contract (app/config.py), by which the set tells them apart.
pub mod Union
pub mod Found
use uzh_blockchain_data_coll.Base.{
  ℕ, Option, none, some, Bool, true, false, List, [], ◌∷◌, ◌++◌, ◌&&◌, ◌||◌, ◌==◌, list_eq, nat_eq,
  contains, if◌then◌else◌,
}
use uzh_blockchain_data_coll.Base.Text.{Str}
use uzh_blockchain_data_coll.Model.{category_value}
use uzh_blockchain_data_coll.Parser.{ContractConfig}
use uzh_blockchain_data_coll.Config.{DataCollectionConfig}

-- `<=` of two sets
abbrev is_subset : List Str → List Str → Bool
is_subset [] ys = true
is_subset (x ∷ xs) ys = contains ys x && is_subset xs ys

-- `__eq__`; `events` is a frozenset.
unfoldable pub contract_eq : ContractConfig → ContractConfig → Bool
unfolding category_value
contract_eq c d =
    c.address == d.address
    && (c.symbol == d.symbol
        && (category_value c.category == category_value d.category
            && (is_subset c.events d.events && is_subset d.events c.events)))

abbrev join_all : List Str → Str
join_all [] = []
join_all (s ∷ ss) = s ++ join_all ss

-- Python's `hash` of a text, and the order in which it goes through a frozenset of texts.
module _ (hash : Str → ℕ) (visit : List Str → List Str) where
  -- `__hash__`
  unfoldable pub contract_hash : ContractConfig → ℕ
  unfolding category_value
  contract_hash c =
      hash (c.address ++ (c.symbol ++ (category_value c.category ++ join_all (visit c.events))))

  -- `c in set`
  unfoldable pub is_in : ContractConfig → List ContractConfig → Bool
  unfolding contract_eq contract_hash
  is_in c [] = false
  is_in c (d ∷ set) = (contract_hash c == contract_hash d && contract_eq c d) || is_in c set

  unfoldable pub add : ContractConfig → List ContractConfig → List ContractConfig
  unfolding is_in
  add c set = if is_in c set then set else set ++ (c ∷ [])

  -- `set.union(cs)`, with the elements in the order in which they came
  unfoldable pub union : List ContractConfig → List ContractConfig → List ContractConfig
  unfolding add
  union set [] = set
  union set (c ∷ cs) = union (add c set) cs

  -- `if data_cfg.contracts`, with its body. An empty list is falsy, and would add nothing.
  unfoldable pub with_contracts :
      Option (List ContractConfig) → List ContractConfig → List ContractConfig
  unfolding union
  with_contracts none contracts = contracts
  with_contracts (some cs) contracts = union contracts (union [] cs)

  -- The loop over the configurations.
  unfoldable pub all_contracts :
      {J : Type 0} → List (DataCollectionConfig J) → List ContractConfig → List ContractConfig
  unfolding with_contracts
  all_contracts [] contracts = contracts
  all_contracts (cfg ∷ cfgs) contracts = all_contracts cfgs (with_contracts cfg.contracts contracts)
