-- ===== src/Query/Overview.antt =====
-- etc/query_tool.py, the command `plot_overview`: what its plot shows. The text of the queries is
-- SQL; the sizes of the tables are PostgreSQL's.
use uzh_blockchain_data_coll.Base.{
  ℕ, ◌≤◌, List, [], ◌∷◌, ◌≡◌, refl, ap, ap₂, arith, length, leb, if◌then◌else◌, ◌↔◌, map, All, In,
  inl, inr, Bool-cases,
}
use uzh_blockchain_data_coll.Base.Text.{Str, str}
use uzh_blockchain_data_coll.Db.Tables.{Db}

-- `pg_relation_size` of the tables that the query selects.
pub record Sizes : Type 0 where
  pub block : ℕ
  pub transaction : ℕ
  pub internal_transaction : ℕ
  pub transaction_logs : ℕ

abbrev pub all_sizes : Sizes → List ℕ
all_sizes s = s.block ∷ s.transaction ∷ s.internal_transaction ∷ s.transaction_logs ∷ []

-- `ORDER BY 3 ASC`
unfoldable pub insert_size : ℕ → List ℕ → List ℕ
insert_size x [] = x ∷ []
insert_size x (y ∷ ys) = let later = insert_size x ys in if leb x y then x ∷ y ∷ ys else y ∷ later

unfoldable pub order_sizes : List ℕ → List ℕ
unfolding insert_size
order_sizes [] = []
order_sizes (x ∷ xs) = insert_size x (order_sizes xs)

-- A bar with its count, and the text that is written into it.
pub record OverviewBar : Type 0 where
  pub bar_name : Str
  pub n_records : ℕ
  pub size_in_db : Str

-- `zip(ax.patches, table_sizes)`, for the bars in the order of `bar_names`
unfoldable pub zip_bars : List (Str × ℕ) → List Str → List OverviewBar
zip_bars [] sizes = []
zip_bars (b ∷ bs) [] = []
zip_bars ((name, n) ∷ bs) (s ∷ sizes) =
    record { bar_name = name; n_records = n; size_in_db = s } ∷ zip_bars bs sizes

-- `bar_names` and `counts`
unfoldable pub counted_bars : {F : Type 0} → Db F → List (Str × ℕ)
counted_bars db =
    (str "Blocks", length db.block)
    ∷ (str "External Transactions", length db.transaction)
    ∷ (str "Logs", length db.transaction_logs)
    ∷ (str "Internal Transactions", length db.internal_transaction)
    ∷ []

-- `pg_size_pretty` is PostgreSQL's.
module _ (pg_size_pretty : ℕ → Str) where
  -- `table_sizes`, the texts in the order of the sizes
  unfoldable pub table_sizes : Sizes → List Str
  unfolding order_sizes
  table_sizes s = map pg_size_pretty (order_sizes (all_sizes s))

  unfoldable pub plot_overview : {F : Type 0} → Db F → Sizes → List OverviewBar
  unfolding counted_bars zip_bars table_sizes
  plot_overview db sizes = zip_bars (counted_bars db) (table_sizes sizes)

-- The sizes of the tables in the order of their bars.
abbrev pub bar_sizes : Sizes → List ℕ
bar_sizes s = s.block ∷ s.transaction ∷ s.transaction_logs ∷ s.internal_transaction ∷ []

-- The bars with the size of their own table.
abbrev pub own_sizes : {F : Type 0} → (ℕ → Str) → Db F → Sizes → List OverviewBar
own_sizes pg_size_pretty db s = zip_bars (counted_bars db) (map pg_size_pretty (bar_sizes s))

-- The tables get larger, or stay as large, in the order of the bars.
abbrev pub AreAscending : Sizes → Type 0
AreAscending s =
    (s.block ≤ s.transaction)
    × (s.transaction ≤ s.transaction_logs)
    × (s.transaction_logs ≤ s.internal_transaction)

-- Two sizes with the same text, of those given, are equal.
abbrev pub AreDistinguished : (ℕ → Str) → List ℕ → Type 0
AreDistinguished pg_size_pretty sizes =
    (x y : ℕ) → In x sizes → In y sizes → pg_size_pretty x ≡ pg_size_pretty y → x ≡ y

insert_size-All : (P : ℕ → Type 0) (x : ℕ) (ys : List ℕ) → P x → All P ys → All P (insert_size x ys)
unfolding insert_size
insert_size-All P x [] p h = (p, tt)
insert_size-All P x (y ∷ ys) p (q, h) = elim (Bool-cases (leb x y)) [
  | inl first ↦ rw first (p, (q, h))
  | inr later ↦ rw later (q, insert_size-All P x ys p h)
]

order_sizes-All : (P : ℕ → Type 0) (xs : List ℕ) → All P xs → All P (order_sizes xs)
unfolding order_sizes
order_sizes-All P [] h = tt
order_sizes-All P (x ∷ xs) (p, h) = insert_size-All P x (order_sizes xs) p (order_sizes-All P xs h)

map_distinguished :
    (pretty : ℕ → Str) (all xs ys : List ℕ)
    → AreDistinguished pretty all
    → All (λ x. In x all) xs
    → All (λ y. In y all) ys
    → map pretty xs ≡ map pretty ys
    → xs ≡ ys
map_distinguished pretty all [] [] d h h' e = refl
map_distinguished pretty all [] (y ∷ ys) d h h' e = cc
map_distinguished pretty all (x ∷ xs) [] d h h' e = cc
map_distinguished pretty all (x ∷ xs) (y ∷ ys) d (p, h) (q, h') e =
    ap₂ (λ a as'. a ∷ as') (d x y p q (ground (arith, e)))
      (map_distinguished pretty all xs ys d h h' (ground (arith, e)))

ordered_ascending : (s : Sizes) → AreAscending s → order_sizes (all_sizes s) ≡ bar_sizes s
unfolding order_sizes insert_size
ordered_ascending s (a, b, c) = ground arith

ascending_ordered : (s : Sizes) → order_sizes (all_sizes s) ≡ bar_sizes s → AreAscending s
unfolding order_sizes insert_size
ascending_ordered s e = (ground arith, ground arith, ground arith)

module _ (pg_size_pretty : ℕ → Str) {F : Type 0} (db : Db F) (s : Sizes)
    (distinguished : AreDistinguished pg_size_pretty (all_sizes s)) where
  same_texts :
      plot_overview pg_size_pretty db s ≡ own_sizes pg_size_pretty db s
      → map pg_size_pretty (order_sizes (all_sizes s)) ≡ map pg_size_pretty (bar_sizes s)
  unfolding plot_overview table_sizes order_sizes insert_size zip_bars counted_bars
  same_texts h = ground (arith, h)

  -- If pg_size_pretty gives different texts to tables of different sizes, each bar of the
  -- overview plot carries the text for the size of its own table exactly if blocks,
  -- transactions, logs and internal transactions take more, or as much, space in this order.
  pub plot_overview-own_sizes :
      (plot_overview pg_size_pretty db s ≡ own_sizes pg_size_pretty db s) ↔ AreAscending s
  unfolding plot_overview
  plot_overview-own_sizes = (
    λ h.
        let found : All (λ x. In x (all_sizes s)) (all_sizes s) =
          (inl refl, (inr (inl refl), (inr (inr (inl refl)), (inr (inr (inr (inl refl))), tt)))) in
        let own : All (λ x. In x (all_sizes s)) (bar_sizes s) =
          (inl refl, (inr (inl refl), (inr (inr (inr (inl refl))), (inr (inr (inl refl)), tt)))) in
        ascending_ordered s (
          map_distinguished pg_size_pretty (all_sizes s) (order_sizes (all_sizes s)) (bar_sizes s)
            distinguished (order_sizes-All (λ x. In x (all_sizes s)) (all_sizes s) found) own
            (same_texts h)),
    λ h. ap (λ xs. zip_bars (counted_bars db) (map pg_size_pretty xs)) (ordered_ascending s h),
  )
