-- ===== src/Consumer/Contracts/Found.antt =====
-- The consumer finds every configured contract, whatever configuration it stands in.
use uzh_blockchain_data_coll.Base.{
  ℕ, Option, none, some, true, List, [], ◌∷◌, ◌≡◌, ◌⊎◌, ◌↔◌, inl, inr, refl, sym, ap, ◌∙◌, arith,
  ◌==◌, list_eq, nat_eq, if◌then◌else◌, Bool-cases, In,
}
use uzh_blockchain_data_coll.Base.Text.{Str, lower}
use uzh_blockchain_data_coll.Errors.{ok}
use uzh_blockchain_data_coll.Parser.{ContractConfig, find_config, config_cache}
use uzh_blockchain_data_coll.Parser.Lookup.{last_match, find_config-config_cache}
use uzh_blockchain_data_coll.Config.{DataCollectionConfig}
use uzh_blockchain_data_coll.Consumer.Contracts.{contract_eq, all_contracts}
use uzh_blockchain_data_coll.Consumer.Contracts.Union.{
  IsConfigured, all_contracts-HasAddress, all_contracts_only,
}

-- What a look-up in a list finds: what was there before, or an element with the address.
abbrev IsMatch : Str → List ContractConfig → Option ContractConfig → Type 0
IsMatch a cs o = (e : ContractConfig) × (o ≡ some e) × In e cs × (lower a ≡ lower e.address)

IsMatch-cons :
    (a : Str) (c : ContractConfig) (cs : List ContractConfig) (o : Option ContractConfig)
    → IsMatch a cs o
    → IsMatch a (c ∷ cs) o
IsMatch-cons a c cs o (e, found_e, m, same) = (e, found_e, inr m, same)

last_match-IsMatch :
    (a : Str) (cs : List ContractConfig) (found : Option ContractConfig)
    → (last_match a cs found ≡ found) ⊎ IsMatch a cs (last_match a cs found)
unfolding last_match
last_match-IsMatch a [] found = inl refl
last_match-IsMatch a (c ∷ cs) found = elim (Bool-cases (lower a == lower c.address)) [
  | inl matches ↦ rw matches (elim (last_match-IsMatch a cs (some c)) [
    | inl same ↦ inr (c, same, inl refl, ground (arith, matches))
    | inr later ↦ inr (IsMatch-cons a c cs _ later)
  ])
  | inr other ↦ rw other (elim (last_match-IsMatch a cs found) [
    | inl same ↦ inl same
    | inr later ↦ inr (IsMatch-cons a c cs _ later)
  ])
]

head-IsMatch :
    (a : Str) (c : ContractConfig) (cs : List ContractConfig)
    → lower a ≡ lower c.address
    → IsMatch a (c ∷ cs) (last_match a cs (some c))
head-IsMatch a c cs matches = elim (last_match-IsMatch a cs (some c)) [
  | inl same ↦ (c, same, inl refl, matches)
  | inr later ↦ IsMatch-cons a c cs _ later
]

last_match_found :
    (a : Str) (cs : List ContractConfig) (found : Option ContractConfig) (d : ContractConfig)
    → In d cs
    → lower a ≡ lower d.address
    → IsMatch a cs (last_match a cs found)
unfolding last_match
last_match_found a [] found d m same = absurd m
last_match_found a (c ∷ cs) found d (inl e) same =
    let here : lower a ≡ lower c.address = same ∙ ap (λ x. lower x.address) e in
    let test : (lower a == lower c.address) ≡ true = ground (arith, here) in
    rw test (head-IsMatch a c cs here)
last_match_found a (c ∷ cs) found d (inr rest) same =
    IsMatch-cons a c cs _
      (last_match_found a cs (if lower a == lower c.address then some c else found) d rest same)

-- If all configured contracts with the address of a configured contract, up to the case of
-- letters, are equal to it, then the consumer's parser finds an equal contract for its address,
-- whichever configuration it stands in and in whatever order the set of all contracts is
-- visited.
pub find_config-all_contracts :
    {J : Type 0} (hash : Str → ℕ) (visit : List Str → List Str)
    (visit_set : List ContractConfig → List ContractConfig) (cfgs : List (DataCollectionConfig J))
    (c : ContractConfig)
    → ((d : ContractConfig) (set : List ContractConfig) → In d (visit_set set) ↔ In d set)
    → ((d : ContractConfig)
        → IsConfigured d cfgs
        → lower c.address ≡ lower d.address
        → contract_eq c d ≡ true)
    → IsConfigured c cfgs
    → (d : ContractConfig) × (find_config
          (config_cache (visit_set (all_contracts hash visit cfgs [])))
          (some c.address)
        ≡ ok (some d))
      × (contract_eq c d ≡ true)
find_config-all_contracts hash visit visit_set cfgs c same_set unique configured =
    let set = all_contracts hash visit cfgs [] in
    let (d, m, same) = all_contracts-HasAddress hash visit c cfgs [] configured in
    let (e, found, me, matches) =
      last_match_found c.address (visit_set set) none d ((same_set d set).1 m)
        (ap lower (sym same)) in
    let given : IsConfigured e cfgs =
      elim (all_contracts_only hash visit e cfgs [] ((same_set e set).0 me)) [
        | inl g ↦ g
        | inr no_more ↦ absurd no_more
      ] in
    (e, find_config-config_cache (visit_set set) c.address ∙ ap ok found, unique e given matches)
