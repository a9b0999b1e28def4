-- ===== src/Pairs/Accepted.antt =====
-- What the script prints is accepted as a configuration's contracts.
use uzh_blockchain_data_coll.Base.{List, [], ◌∷◌, ◌++◌, ◌≡◌, refl, arith, All, map, list_eq, nat_eq}
use uzh_blockchain_data_coll.Base.Text.{Str}
use uzh_blockchain_data_coll.Errors.{ok}
use uzh_blockchain_data_coll.Model.{uni_swap_v2_pair, category_value}
use uzh_blockchain_data_coll.Main.{member_of}
use uzh_blockchain_data_coll.Parser.{ContractConfig}
use uzh_blockchain_data_coll.Config.{check_contracts}
use uzh_blockchain_data_coll.Config.EventNames.{IsEventName}
use uzh_blockchain_data_coll.Config.Accepted.{IsContract, IsContract-check_contracts}
use uzh_blockchain_data_coll.Pairs.{
  Pair, pair_entry, pair_entries, read_contract, read_contracts, symbol_prefix,
}

-- The contract of a pair.
abbrev pub pair_contract : List Str → Pair → ContractConfig
pair_contract events pair = record {
  address = pair.id;
  symbol = symbol_prefix ++ (pair.token0_symbol ++ (b'-' ∷ pair.token1_symbol));
  category = uni_swap_v2_pair;
  events = events;
}

read_contract-pair_entry :
    (events : List Str) (pair : Pair)
    → read_contract (pair_entry events pair) ≡ ok (pair_contract events pair)
unfolding read_contract pair_entry member_of category_value list_eq nat_eq
read_contract-pair_entry events pair = refl

read_contracts-pair_entries :
    (events : List Str) (pairs : List Pair)
    → read_contracts (pair_entries events pairs) ≡ ok (map (pair_contract events) pairs)
unfolding read_contracts pair_entries
read_contracts-pair_entries events [] = refl
read_contracts-pair_entries events (p ∷ pairs) =
    ground (arith, read_contract-pair_entry events p, read_contracts-pair_entries events pairs)

All-IsContract :
    (events : List Str) (pairs : List Pair)
    → All IsEventName events
    → All IsContract (map (pair_contract events) pairs)
All-IsContract events [] named = tt
All-IsContract events (p ∷ pairs) named = (named, All-IsContract events pairs named)

-- With event names that the mappers give, the list that the generator of Uniswap pairs prints is
-- read by the configuration as the pairs' contracts, with their category and these events, and
-- passes the validators.
pub pair_entries_accepted :
    (events : List Str) (pairs : List Pair)
    → All IsEventName events
    → (cs : List ContractConfig) × (read_contracts (pair_entries events pairs) ≡ ok cs)
      × (check_contracts cs ≡ ok tt)
      × (cs ≡ map (pair_contract events) pairs)
pair_entries_accepted events pairs named = (
  map (pair_contract events) pairs,
  read_contracts-pair_entries events pairs,
  IsContract-check_contracts (map (pair_contract events) pairs) (All-IsContract events pairs named),
  refl,
)
