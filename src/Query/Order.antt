-- ===== src/Query/Order.antt =====
-- `ORDER BY B.timestamp ASC`: the records are the same, in the order of their timestamps.
use uzh_blockchain_data_coll.Base.{
  ℕ, Bool, true, false, List, [], ◌∷◌, ◌≡◌, ◌≤◌, ◌⊎◌, ◌↔◌, inl, inr, refl, arith, if◌then◌else◌,
  All, leb, In,
}
use uzh_blockchain_data_coll.Query.{Change, insert_by, order_by_timestamp}

-- Every record stands before those with later timestamps.
abbrev pub IsSorted : List Change → Type 0
IsSorted [] = Unit
IsSorted (r ∷ rs) = All (λ q. r.timestamp ≤ q.timestamp) rs × IsSorted rs

if_either :
    {A : Type 0} (P : A → Type 0) (c : Bool) (x y : A)
    → (c ≡ true → P x)
    → (c ≡ false → P y)
    → P (if c then x else y)
if_either P true x y yes' no' = yes' refl
if_either P false x y yes' no' = no' refl

All-mono :
    (rs : List Change) (m n : ℕ)
    → m ≤ n
    → All (λ q. n ≤ q.timestamp) rs
    → All (λ q. m ≤ q.timestamp) rs
All-mono [] m n le all = tt
All-mono (q ∷ rs) m n le (first, all) = (omega arith, All-mono rs m n le all)

insert_by-All :
    (m : ℕ) (r : Change) (rs : List Change)
    → m ≤ r.timestamp
    → All (λ q. m ≤ q.timestamp) rs
    → All (λ q. m ≤ q.timestamp) (insert_by r rs)
unfolding insert_by
insert_by-All m r [] le all = (le, tt)
insert_by-All m r (q ∷ rs) le (first, all) =
    if_either (All (λ p. m ≤ p.timestamp)) (leb r.timestamp q.timestamp) (r ∷ q ∷ rs)
      (q ∷ insert_by r rs) (λ t. (le, (first, all))) (λ f. (first, insert_by-All m r rs le all))

insert_by-IsSorted : (r : Change) (rs : List Change) → IsSorted rs → IsSorted (insert_by r rs)
unfolding insert_by
insert_by-IsSorted r [] h = (tt, tt)
insert_by-IsSorted r (q ∷ rs) (before, h) =
    if_either IsSorted (leb r.timestamp q.timestamp) (r ∷ q ∷ rs) (q ∷ insert_by r rs)
      (λ t.
        let le : r.timestamp ≤ q.timestamp = ground arith in
        ((le, All-mono rs r.timestamp q.timestamp le before), (before, h)))
      (λ f. (insert_by-All q.timestamp r rs (ground arith) before, insert_by-IsSorted r rs h))

pub order_by_timestamp-IsSorted : (rs : List Change) → IsSorted (order_by_timestamp rs)
unfolding order_by_timestamp
order_by_timestamp-IsSorted [] = tt
order_by_timestamp-IsSorted (r ∷ rs) =
    insert_by-IsSorted r (order_by_timestamp rs) (order_by_timestamp-IsSorted rs)

later_element :
    (a r q : Change) (c : Bool) (rs later : List Change)
    → In a later ↔ ((a ≡ r) ⊎ In a rs)
    → In a (if c then r ∷ q ∷ rs else q ∷ later) ↔ ((a ≡ r) ⊎ In a (q ∷ rs))
later_element a r q true rs later ih = (λ h. h, λ h. h)
later_element a r q false rs later ih = (
  elim [ inl e ↦ inr (inl e) | inr h ↦ elim (ih.0 h) [ inl e ↦ inl e | inr m ↦ inr (inr m) ] ],
  elim [
    | inl e ↦ inr (ih.1 (inl e))
    | inr h ↦ elim h [ inl e ↦ inl e | inr m ↦ inr (ih.1 (inr m)) ]
  ],
)

In-insert_by : (a r : Change) (rs : List Change) → In a (insert_by r rs) ↔ ((a ≡ r) ⊎ In a rs)
unfolding insert_by
In-insert_by a r [] = (λ h. h, λ h. h)
In-insert_by a r (q ∷ rs) =
    later_element a r q (leb r.timestamp q.timestamp) rs (insert_by r rs) (In-insert_by a r rs)

pub In-order_by_timestamp : (a : Change) (rs : List Change) → In a (order_by_timestamp rs) ↔ In a rs
unfolding order_by_timestamp
In-order_by_timestamp a [] = (λ h. h, λ h. h)
In-order_by_timestamp a (r ∷ rs) = (
  λ h. elim ((In-insert_by a r (order_by_timestamp rs)).0 h) [
    | inl e ↦ inl e
    | inr m ↦ inr ((In-order_by_timestamp a rs).0 m)
  ],
  λ h.
      (In-insert_by a r (order_by_timestamp rs)).1
        (elim h [ inl e ↦ inl e | inr m ↦ inr ((In-order_by_timestamp a rs).1 m) ]),
)
