-- ===== src/Config/EventNames.antt =====
-- The event names that a contract may be configured with are those of the events that the mappers give.
use uzh_blockchain_data_coll.Base.{
  true, List, [], ◌∷◌, ◌≡◌, refl, arith, All, ◌==◌, list_eq, nat_eq, contains, Bool-cases, inl, inr,
}
use uzh_blockchain_data_coll.Base.Text.{Str}
use uzh_blockchain_data_coll.Errors.{ok}
use uzh_blockchain_data_coll.Events.Types.{
  EventBody, event_name, mint_fungible, burn_fungible, transfer_fungible, pair_created, mint_pair,
  burn_pair, swap_pair, mint_non_fungible, burn_non_fungible, transfer_non_fungible,
}
use uzh_blockchain_data_coll.Config.{matches_regex, event_cls_names, check_items, check_event_names}

-- The name of an event that a mapper can give.
abbrev pub IsEventName : Str → Type 0
IsEventName v = (body : EventBody) × (v ≡ event_name body)

contains-All :
    (P : Str → Type 0) (names : List Str) (v : Str) → All P names → contains names v ≡ true → P v
contains-All P [] v all h = cc
contains-All P (x ∷ names) v (p, all) h = elim (Bool-cases (v == x)) [
  | inl same ↦ let e : v ≡ x = ground (arith, same) in rw e p
  | inr other ↦ contains-All P names v all (ground (arith, other, h))
]

names-IsEventName : All IsEventName event_cls_names
unfolding event_name
names-IsEventName = (
  (mint_fungible 0, refl),
  (
    (burn_fungible 0, refl),
    (
      (transfer_fungible [] [] 0, refl),
      (
        (pair_created [] [] [], refl),
        (
          (mint_pair [] 0 0, refl),
          (
            (burn_pair [] [] 0 0, refl),
            (
              (swap_pair [] [] 0 0 0 0, refl),
              (
                (mint_non_fungible 0, refl),
                ((burn_non_fungible 0, refl), ((transfer_non_fungible [] [] 0, refl), tt)),
              ),
            ),
          ),
        ),
      ),
    ),
  ),
)

-- Every event name is listed, and has the form of a name.
event_name-listed :
    (body : EventBody)
    → (contains event_cls_names (event_name body) ≡ true) × (matches_regex (event_name body) ≡ true)
unfolding event_name matches_regex list_eq nat_eq
event_name-listed (mint_fungible v) = (refl, refl)
event_name-listed (burn_fungible v) = (refl, refl)
event_name-listed (transfer_fungible s d v) = (refl, refl)
event_name-listed (pair_created p a b) = (refl, refl)
event_name-listed (mint_pair s a b) = (refl, refl)
event_name-listed (burn_pair s d a b) = (refl, refl)
event_name-listed (swap_pair s d a b c e) = (refl, refl)
event_name-listed (mint_non_fungible t) = (refl, refl)
event_name-listed (burn_non_fungible t) = (refl, refl)
event_name-listed (transfer_non_fungible s d t) = (refl, refl)

pub check_event_names-names : (vs : List Str) → check_event_names vs ≡ ok tt → All IsEventName vs
unfolding check_event_names
check_event_names-names [] h = tt
check_event_names-names (v ∷ vs) h = elim (Bool-cases (contains event_cls_names v)) [
  | inl listed ↦ (
    contains-All IsEventName event_cls_names v names-IsEventName listed,
    check_event_names-names vs (ground (arith, listed, h)),
  )
  | inr other ↦ absurd (ground (arith, other, h))
]

-- An event name passes both checks of the field.
pub names-check :
    (vs : List Str) → All IsEventName vs → (check_items vs ≡ ok tt) × (check_event_names vs ≡ ok tt)
unfolding check_items check_event_names
names-check [] all = (refl, refl)
names-check (v ∷ vs) ((body, same), all) =
    let (items, names) = names-check vs all in
    let (listed, matches) = event_name-listed body in
    let listed' : contains event_cls_names v ≡ true = rw same listed in
    let matches' : matches_regex v ≡ true = rw same matches in
    (ground (arith, matches', items), ground (arith, listed', names))
