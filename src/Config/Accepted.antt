-- ===== src/Config/Accepted.antt =====
-- The configurations that the validators accept, described without them.
use uzh_blockchain_data_coll.Base.{
  Option, none, some, List, [], ◌∷◌, ◌≡◌, refl, arith, All, list_eq, nat_eq,
}
use uzh_blockchain_data_coll.Base.Int.{ℤ, ◌≤ℤ◌}
use uzh_blockchain_data_coll.Errors.{ok}
use uzh_blockchain_data_coll.Model.{Mode, full, partial, log_filter, get_logs}
use uzh_blockchain_data_coll.Parser.{ContractConfig}
use uzh_blockchain_data_coll.Config.EventNames.{IsEventName, names-check}
use uzh_blockchain_data_coll.Config.{DataCollectionConfig, check_contract, check_contracts}

-- What each field says in an accepted configuration.
abbrev pub IsContract : ContractConfig → Type 0
IsContract c = All IsEventName c.events

abbrev AreContracts : Option (List ContractConfig) → Type 0
AreContracts none = Unit
AreContracts (some cs) = All IsContract cs

abbrev InOrder : Option ℤ → Option ℤ → Type 0
InOrder (some start_block) (some end_block) = start_block ≤ℤ end_block
InOrder _ _ = Unit

abbrev IsGiven : {A : Type 0} → Option A → Type 0
IsGiven {A} o = (a : A) × (o ≡ some a)

module _ {J : Type 0} where
  abbrev HasFields : Mode → DataCollectionConfig J → Type 0
  HasFields full c = Unit
  HasFields partial c = IsGiven c.contracts
  HasFields log_filter c = IsGiven c.topics
  HasFields get_logs c = IsGiven c.params

  pub record IsAccepted (c : DataCollectionConfig J) : Type 0 where
    pub contracts : AreContracts c.contracts
    pub order : InOrder c.start_block c.end_block
    pub fields : HasFields c.mode c

IsContract-check_contract : (c : ContractConfig) → IsContract c → check_contract c ≡ ok tt
unfolding check_contract
IsContract-check_contract c all =
    let (items, names) = names-check c.events all in ground (arith, items, names)

pub IsContract-check_contracts :
    (cs : List ContractConfig) → All IsContract cs → check_contracts cs ≡ ok tt
unfolding check_contracts
IsContract-check_contracts [] all = refl
IsContract-check_contracts (c ∷ cs) (p, all) =
    let first = IsContract-check_contract c p in
    let rest = IsContract-check_contracts cs all in ground (arith, first, rest)
