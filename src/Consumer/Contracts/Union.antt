-- ===== src/Consumer/Contracts/Union.antt =====
-- The set of the contracts of all configurations has the contracts of each, and no others.
use uzh_blockchain_data_coll.Base.{
  ℕ, Option, none, some, true, List, [], ◌∷◌, ◌≡◌, ◌⊎◌, inl, inr, refl, sym, ap, ◌∙◌, arith, ◌==◌,
  list_eq, nat_eq, Bool-cases, In, In-append,
}
use uzh_blockchain_data_coll.Base.Text.{Str}
use uzh_blockchain_data_coll.Parser.{ContractConfig}
use uzh_blockchain_data_coll.Config.{DataCollectionConfig}
use uzh_blockchain_data_coll.Consumer.Contracts.{
  contract_eq, is_in, add, union, with_contracts, all_contracts,
}

-- A contract of the set with this address.
abbrev pub HasAddress : Str → List ContractConfig → Type 0
HasAddress a set = (d : ContractConfig) × In d set × (d.address ≡ a)

module _ (hash : Str → ℕ) (visit : List Str → List Str) where
  is_in-HasAddress :
      (c : ContractConfig) (set : List ContractConfig)
      → is_in hash visit c set ≡ true
      → HasAddress c.address set
  unfolding is_in contract_eq
  is_in-HasAddress c [] h = cc
  is_in-HasAddress c (d ∷ set) h = elim (Bool-cases (d.address == c.address)) [
    | inl same ↦ (d, inl refl, ground (arith, same))
    | inr other ↦
        let (e, m, same) = is_in-HasAddress c set (ground (arith, other, h)) in (e, inr m, same)
  ]

  -- Adding keeps what is there, adds the address of the new one, and nothing else.
  add_keeps :
      (c d : ContractConfig) (set : List ContractConfig) → In d set → In d (add hash visit c set)
  unfolding add
  add_keeps c d set m = elim (Bool-cases (is_in hash visit c set)) [
    | inl old ↦ rw old m
    | inr new ↦ rw new ((In-append d set (c ∷ [])).1 (inl m))
  ]

  add-HasAddress :
      (c : ContractConfig) (set : List ContractConfig) → HasAddress c.address (add hash visit c set)
  unfolding add
  add-HasAddress c set = elim (Bool-cases (is_in hash visit c set)) [
    | inl old ↦ rw old (is_in-HasAddress c set old)
    | inr new ↦ rw new ((c, (In-append c set (c ∷ [])).1 (inr (inl refl)), refl))
  ]

  add_only :
      (c d : ContractConfig) (set : List ContractConfig)
      → In d (add hash visit c set)
      → (d ≡ c) ⊎ In d set
  unfolding add
  add_only c d set = elim (Bool-cases (is_in hash visit c set)) [
    | inl old ↦ rw old (λ m. inr m)
    | inr new ↦ rw new (λ m. elim ((In-append d set (c ∷ [])).0 m) [
      | inl l ↦ inr l
      | inr r ↦ elim r [ inl e ↦ inl e | inr no_more ↦ absurd no_more ]
    ])
  ]

  union_keeps :
      (d : ContractConfig) (set cs : List ContractConfig)
      → In d set
      → In d (union hash visit set cs)
  unfolding union
  union_keeps d set [] m = m
  union_keeps d set (c ∷ cs) m = union_keeps d (add hash visit c set) cs (add_keeps c d set m)

  union-HasAddress :
      (c : ContractConfig) (set cs : List ContractConfig)
      → In c cs
      → HasAddress c.address (union hash visit set cs)
  unfolding union
  union-HasAddress c set [] m = absurd m
  union-HasAddress c set (d ∷ cs) (inl e) =
      let (f, m, same) = add-HasAddress d set in
      (f, union_keeps f (add hash visit d set) cs m, same ∙ ap (λ x. x.address) (sym e))
  union-HasAddress c set (d ∷ cs) (inr rest) = union-HasAddress c (add hash visit d set) cs rest

  union_only :
      (d : ContractConfig) (set cs : List ContractConfig)
      → In d (union hash visit set cs)
      → In d cs ⊎ In d set
  unfolding union
  union_only d set [] m = inr m
  union_only d set (c ∷ cs) m = elim (union_only d (add hash visit c set) cs m) [
    | inl later ↦ inl (inr later)
    | inr now ↦ elim (add_only c d set now) [ inl e ↦ inl (inl e) | inr old ↦ inr old ]
  ]

-- A contract of one of the configurations.
abbrev pub InOptional : ContractConfig → Option (List ContractConfig) → Type 0
InOptional c none = ⊥
InOptional c (some cs) = In c cs

abbrev pub IsConfigured : {J : Type 0} → ContractConfig → List (DataCollectionConfig J) → Type 0
IsConfigured c [] = ⊥
IsConfigured c (cfg ∷ cfgs) = InOptional c cfg.contracts ⊎ IsConfigured c cfgs

module _ (hash : Str → ℕ) (visit : List Str → List Str) where
  with_contracts_keeps :
      (d : ContractConfig) (o : Option (List ContractConfig)) (set : List ContractConfig)
      → In d set
      → In d (with_contracts hash visit o set)
  unfolding with_contracts
  with_contracts_keeps d none set m = m
  with_contracts_keeps d (some cs) set m = union_keeps hash visit d set (union hash visit [] cs) m

  with_contracts-HasAddress :
      (c : ContractConfig) (o : Option (List ContractConfig)) (set : List ContractConfig)
      → InOptional c o
      → HasAddress c.address (with_contracts hash visit o set)
  unfolding with_contracts
  with_contracts-HasAddress c none set m = absurd m
  with_contracts-HasAddress c (some cs) set m =
      let (d, md, same) = union-HasAddress hash visit c [] cs m in
      let (e, me, again) = union-HasAddress hash visit d set (union hash visit [] cs) md in
      (e, me, again ∙ same)

  with_contracts_only :
      (d : ContractConfig) (o : Option (List ContractConfig)) (set : List ContractConfig)
      → In d (with_contracts hash visit o set)
      → InOptional d o ⊎ In d set
  unfolding with_contracts
  with_contracts_only d none set m = inr m
  with_contracts_only d (some cs) set m =
      elim (union_only hash visit d set (union hash visit [] cs) m) [
        | inl new ↦ elim (union_only hash visit d [] cs new) [
          | inl given ↦ inl given
          | inr no_more ↦ absurd no_more
        ]
        | inr old ↦ inr old
      ]

  module _ {J : Type 0} where
    all_contracts_keeps :
        (d : ContractConfig) (cfgs : List (DataCollectionConfig J)) (set : List ContractConfig)
        → In d set
        → In d (all_contracts hash visit cfgs set)
    unfolding all_contracts
    all_contracts_keeps d [] set m = m
    all_contracts_keeps d (cfg ∷ cfgs) set m =
        all_contracts_keeps d cfgs (with_contracts hash visit cfg.contracts set)
          (with_contracts_keeps d cfg.contracts set m)

    pub all_contracts-HasAddress :
        (c : ContractConfig) (cfgs : List (DataCollectionConfig J)) (set : List ContractConfig)
        → IsConfigured c cfgs
        → HasAddress c.address (all_contracts hash visit cfgs set)
    unfolding all_contracts
    all_contracts-HasAddress c [] set m = absurd m
    all_contracts-HasAddress c (cfg ∷ cfgs) set (inl here) =
        let (d, m, same) = with_contracts-HasAddress c cfg.contracts set here in
        (d, all_contracts_keeps d cfgs (with_contracts hash visit cfg.contracts set) m, same)
    all_contracts-HasAddress c (cfg ∷ cfgs) set (inr later) =
        all_contracts-HasAddress c cfgs (with_contracts hash visit cfg.contracts set) later

    pub all_contracts_only :
        (d : ContractConfig) (cfgs : List (DataCollectionConfig J)) (set : List ContractConfig)
        → In d (all_contracts hash visit cfgs set)
        → IsConfigured d cfgs ⊎ In d set
    unfolding all_contracts
    all_contracts_only d [] set m = inr m
    all_contracts_only d (cfg ∷ cfgs) set m =
        elim (all_contracts_only d cfgs (with_contracts hash visit cfg.contracts set) m) [
          | inl later ↦ inl (inr later)
          | inr now ↦ elim (with_contracts_only d cfg.contracts set now) [
            | inl here ↦ inl (inl here)
            | inr old ↦ inr old
          ]
        ]
