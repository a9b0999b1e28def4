-- ===== src/Query/Join.antt =====
-- The rows that a joined record comes from.
use uzh_blockchain_data_coll.Base.{
  In, In-append, Bool, true, false, List, [], ◌∷◌, ◌++◌, ◌≡◌, ◌⊎◌, ◌↔◌, inl, inr, refl, sym,
  if◌then◌else◌,
}
use uzh_blockchain_data_coll.Db.Tables.{SupplyChangeRow, TransactionRow, BlockRow}
use uzh_blockchain_data_coll.Query.{
  Args, Change, joins_transaction, joins_block, join_blocks, join_transactions, join,
}

tested_element :
    {A : Type 0} (a x : A) (c : Bool) (xs : List A)
    → In a (if c then x ∷ xs else xs) ↔ (((c ≡ true) × (a ≡ x)) ⊎ In a xs)
tested_element a x true xs =
    (elim [ inl e ↦ inl (refl, e) | inr h ↦ inr h ], elim [ inl e ↦ inl e.1 | inr h ↦ inr h ])
tested_element a x false xs = (λ h. inr h, elim [ inl e ↦ absurd (cc) | inr h ↦ h ])

tested_elements :
    {A : Type 0} (a : A) (c : Bool) (xs ys : List A)
    → In a (if c then xs ++ ys else ys) ↔ (((c ≡ true) × In a xs) ⊎ In a ys)
tested_elements a true xs ys = (
  λ h. elim ((In-append a xs ys).0 h) [ inl e ↦ inl (refl, e) | inr r ↦ inr r ],
  λ h. (In-append a xs ys).1 (elim h [ inl e ↦ inl e.1 | inr r ↦ inr r ]),
)
tested_elements a false xs ys = (λ h. inr h, elim [ inl e ↦ absurd (cc) | inr h ↦ h ])

module _ {F : Type 0} (args : Args) where
  -- A record comes from these three rows.
  pub record ComesFrom (r : Change) (s : SupplyChangeRow) (t : TransactionRow F) (b : BlockRow)
      : Type 0 where
    pub same_transaction : joins_transaction args s t ≡ true
    pub same_block : joins_block args t b ≡ true
    pub is_record : r ≡ record { amount_changed = s.amount_changed; timestamp = b.timestamp }

  abbrev FromBlocks : Change → SupplyChangeRow → TransactionRow F → List BlockRow → Type 0
  FromBlocks r s t bs =
      (b : BlockRow) × In b bs
      × (joins_block args t b ≡ true)
      × (r ≡ record { amount_changed = s.amount_changed; timestamp = b.timestamp })

  join_blocks-FromBlocks :
      (r : Change) (s : SupplyChangeRow) (t : TransactionRow F) (bs : List BlockRow)
      → In r (join_blocks args s t bs)
      → FromBlocks r s t bs
  unfolding join_blocks
  join_blocks-FromBlocks r s t [] h = absurd h
  join_blocks-FromBlocks r s t (b ∷ bs) h =
      elim ((tested_element r _ (joins_block args t b) (join_blocks args s t bs)).0 h) [
        | inl (joins, same) ↦ (b, inl refl, joins, same)
        | inr rest ↦
            let (c, m, joins, same) = join_blocks-FromBlocks r s t bs rest in
            (c, inr m, joins, same)
      ]

  FromBlocks-join_blocks :
      (r : Change) (s : SupplyChangeRow) (t : TransactionRow F) (bs : List BlockRow) (b : BlockRow)
      → In b bs
      → joins_block args t b ≡ true
      → r ≡ record { amount_changed = s.amount_changed; timestamp = b.timestamp }
      → In r (join_blocks args s t bs)
  unfolding join_blocks
  FromBlocks-join_blocks r s t [] b m joins same = absurd m
  FromBlocks-join_blocks r s t (c ∷ bs) b m joins same =
      (tested_element r _ (joins_block args t c) (join_blocks args s t bs)).1 (elim m [
        | inl e ↦ inl (rw (sym e) joins, rw (sym e) same)
        | inr rest ↦ inr (FromBlocks-join_blocks r s t bs b rest joins same)
      ])

  abbrev FromTables : Change → SupplyChangeRow → List (TransactionRow F) → List BlockRow → Type 0
  FromTables r s ts bs =
      (t : TransactionRow F) × (b : BlockRow) × In t ts × In b bs × ComesFrom r s t b

  join_transactions-FromTables :
      (r : Change) (s : SupplyChangeRow) (ts : List (TransactionRow F)) (bs : List BlockRow)
      → In r (join_transactions args s ts bs)
      → FromTables r s ts bs
  unfolding join_transactions
  join_transactions-FromTables r s [] bs h = absurd h
  join_transactions-FromTables r s (t ∷ ts) bs h =
      elim ((tested_elements r (joins_transaction args s t) (join_blocks args s t bs)
          (join_transactions args s ts bs)).0
        h) [
          | inl (joins, m) ↦
              let (b, mb, joins_b, same) = join_blocks-FromBlocks r s t bs m in
              (
                t,
                b,
                inl refl,
                mb,
                record { same_transaction = joins; same_block = joins_b; is_record = same },
              )
          | inr rest ↦
              let (u, b, mu, mb, from) = join_transactions-FromTables r s ts bs rest in
              (u, b, inr mu, mb, from)
        ]

  FromTables-join_transactions :
      (r : Change) (s : SupplyChangeRow) (ts : List (TransactionRow F)) (bs : List BlockRow)
      (t : TransactionRow F) (b : BlockRow)
      → In t ts
      → In b bs
      → ComesFrom r s t b
      → In r (join_transactions args s ts bs)
  unfolding join_transactions
  FromTables-join_transactions r s [] bs t b m mb from = absurd m
  FromTables-join_transactions r s (u ∷ ts) bs t b m mb from =
      (tested_elements r (joins_transaction args s u) (join_blocks args s u bs)
          (join_transactions args s ts bs)).1
        (elim m [
          | inl e ↦
              let found = FromBlocks-join_blocks r s t bs b mb from.same_block from.is_record in
              inl (rw (sym e) from.same_transaction, rw (sym e) found)
          | inr rest ↦ inr (FromTables-join_transactions r s ts bs t b rest mb from)
        ])

  -- A record comes from three rows of the tables.
  abbrev pub FromRows :
      Change → List SupplyChangeRow → List (TransactionRow F) → List BlockRow → Type 0
  FromRows r ss ts bs =
      (s : SupplyChangeRow) × (t : TransactionRow F) × (b : BlockRow) × In s ss
      × In t ts
      × In b bs
      × ComesFrom r s t b

  pub join-FromRows :
      (r : Change) (ss : List SupplyChangeRow) (ts : List (TransactionRow F)) (bs : List BlockRow)
      → In r (join args ss ts bs)
      → FromRows r ss ts bs
  unfolding join
  join-FromRows r [] ts bs h = absurd h
  join-FromRows r (s ∷ ss) ts bs h =
      elim ((In-append r (join_transactions args s ts bs) (join args ss ts bs)).0 h) [
        | inl m ↦
            let (t, b, mt, mb, from) = join_transactions-FromTables r s ts bs m in
            (s, t, b, inl refl, mt, mb, from)
        | inr rest ↦
            let (u, t, b, mu, mt, mb, from) = join-FromRows r ss ts bs rest in
            (u, t, b, inr mu, mt, mb, from)
      ]

  pub FromRows-join :
      (r : Change) (ss : List SupplyChangeRow) (ts : List (TransactionRow F)) (bs : List BlockRow)
      → FromRows r ss ts bs
      → In r (join args ss ts bs)
  unfolding join
  FromRows-join r [] ts bs (s, t, b, ms, mt, mb, from) = absurd ms
  FromRows-join r (q ∷ ss) ts bs (s, t, b, ms, mt, mb, from) =
      (In-append r (join_transactions args q ts bs) (join args ss ts bs)).1 (elim ms [
        | inl e ↦
            let found = FromTables-join_transactions r s ts bs t b mt mb from in
            inl (rw (sym e) found)
        | inr rest ↦ inr (FromRows-join r ss ts bs (s, t, b, rest, mt, mb, from))
      ])
