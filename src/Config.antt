-- ===== src/Config.antt =====
-- app/config.py: the data collection configurations and what their validators accept.
pub mod EventNames
pub mod Accepted
use uzh_blockchain_data_coll.Base.{
  ℕ, Option, none, some, Bool, true, false, List, [], ◌∷◌, ◌&&◌, ◌||◌, not, ◌==◌, list_eq, nat_eq,
  contains, leb, if◌then◌else◌,
}
use uzh_blockchain_data_coll.Base.Int.{ℤ, ltb_ℤ}
use uzh_blockchain_data_coll.Base.Text.{Str, str}
use uzh_blockchain_data_coll.Errors.{Result, ok, err, value_error}
use uzh_blockchain_data_coll.Model.{Mode, full, partial, log_filter, get_logs}
use uzh_blockchain_data_coll.Parser.{ContractConfig}

-- `J` stands for the JSON values of `topics` and `params`, which the collector only passes on.
pub record DataCollectionConfig (J : Type 0) : Type 0 where
  pub mode : Mode
  pub start_block : Option ℤ
  pub end_block : Option ℤ
  pub contracts : Option (List ContractConfig)
  pub topics : Option (List J)
  pub params : Option J

is_upper : ℕ → Bool
is_upper c = leb b'A' c && leb c b'Z'

is_letter : ℕ → Bool
unfolding is_upper
is_letter c = is_upper c || (leb b'a' c && leb c b'z')

-- Behind the first letter; `$` also matches before a line feed at the end.
all_letters : Str → Bool
unfolding is_letter
all_letters [] = true
all_letters (c ∷ []) = is_letter c || (c == b'\n')
all_letters (c ∷ d ∷ s) = let rest = all_letters (d ∷ s) in is_letter c && rest

-- `constr(regex="^[A-Z][A-Za-z]*$")`
unfoldable pub matches_regex : Str → Bool
unfolding all_letters is_upper
matches_regex [] = false
matches_regex (c ∷ s) = is_upper c && all_letters s

-- The names in types.py whose values are subclasses of `ContractEvent`, but for itself.
abbrev pub event_cls_names : List Str
event_cls_names =
    str "MintFungibleEvent"
    ∷ str "BurnFungibleEvent"
    ∷ str "TransferFungibleEvent"
    ∷ str "PairCreatedEvent"
    ∷ str "MintPairEvent"
    ∷ str "BurnPairEvent"
    ∷ str "SwapPairEvent"
    ∷ str "MintNonFungibleEvent"
    ∷ str "BurnNonFungibleEvent"
    ∷ str "TransferNonFungibleEvent"
    ∷ []

-- The items of the field are checked against the pattern before its validator runs.
unfoldable pub check_items : List Str → Result (Unit {0})
unfolding matches_regex
check_items [] = ok tt
check_items (v ∷ values) =
    let rest = check_items values in if matches_regex v then rest else err value_error

-- `check_if_events_are_matching_event_names_in_web3_types`
unfoldable pub check_event_names : List Str → Result (Unit {0})
check_event_names [] = ok tt
check_event_names (v ∷ values) =
    let rest = check_event_names values in
    if not (contains event_cls_names v) then err value_error else rest

unfoldable pub check_contract : ContractConfig → Result (Unit {0})
unfolding check_items check_event_names
check_contract c = elim (check_items c.events) [ err e ↦ err e | ok u ↦ check_event_names c.events ]

unfoldable pub check_contracts : List ContractConfig → Result (Unit {0})
unfolding check_contract
check_contracts [] = ok tt
check_contracts (c ∷ cs) = elim (check_contract c) [ err e ↦ err e | ok u ↦ check_contracts cs ]

-- The value of a field that a mode needs must not be `None`.
abbrev pub required : {A : Type 0} → Option A → Result (Unit {0})
required none = err value_error
required (some a) = ok tt

-- A field that may be `None`.
unfoldable pub optional_contracts : Option (List ContractConfig) → Result (Unit {0})
unfolding check_contracts
optional_contracts none = ok tt
optional_contracts (some cs) = check_contracts cs

unfoldable pub check_order : Option ℤ → Option ℤ → Result (Unit {0})
check_order none e = ok tt
check_order (some start_block) none = ok tt
check_order (some start_block) (some end_block) =
    if ltb_ℤ end_block start_block then err value_error else ok tt

module _ {J : Type 0} where
  -- `block_order_correct`
  unfoldable pub block_order_correct : DataCollectionConfig J → Result (Unit {0})
  unfolding check_order
  block_order_correct c = check_order c.start_block c.end_block

  unfoldable pub check_fields : Mode → DataCollectionConfig J → Result (Unit {0})
  check_fields full c = ok tt
  check_fields partial c = required c.contracts
  check_fields log_filter c = required c.topics
  check_fields get_logs c = required c.params

  -- `mode_not_missing_fields`
  unfoldable pub mode_not_missing_fields : DataCollectionConfig J → Result (Unit {0})
  unfolding check_fields
  mode_not_missing_fields c = check_fields c.mode c

  -- The fields of a configuration, then its two root validators. (pydantic goes on behind an error
  -- to collect more of them, and raises one exception, a `ValueError`, for all.)
  unfoldable pub validate : DataCollectionConfig J → Result (Unit {0})
  unfolding block_order_correct mode_not_missing_fields optional_contracts
  validate c = elim (optional_contracts c.contracts) [
    | err e ↦ err e
    | ok u ↦ elim (block_order_correct c) [ err e ↦ err e | ok v ↦ mode_not_missing_fields c ]
  ]

  unfoldable pub validate_items : List (DataCollectionConfig J) → Result (Unit {0})
  unfolding validate
  validate_items [] = ok tt
  validate_items (c ∷ cs) = elim (validate c) [ err e ↦ err e | ok u ↦ validate_items cs ]

  -- `data_collection: conlist(DataCollectionConfig, min_items=1)`
  unfoldable pub validate_all : List (DataCollectionConfig J) → Result (Unit {0})
  unfolding validate_items
  validate_all [] = err value_error
  validate_all (c ∷ cs) = validate_items (c ∷ cs)
