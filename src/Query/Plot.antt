-- ===== src/Query/Plot.antt =====
-- etc/query_tool.py, the command `plot_others`: the bars of the plot of logs per contract.
use uzh_blockchain_data_coll.Base.{
  ℕ, zero, suc, Option, none, some, List, [], ◌∷◌, ◌++◌, ◌≡◌, refl, arith, ◌==◌, list_eq, nat_eq,
  option_eq, leb, if◌then◌else◌,
}
use uzh_blockchain_data_coll.Base.Dict.{Dict, lookup, insert, lookup-insert}
use uzh_blockchain_data_coll.Base.Text.{Str, str, lower}
use uzh_blockchain_data_coll.Errors.{Result, ok, err, attribute_error, key_error}
use uzh_blockchain_data_coll.Db.Tables.{LogRow}
use uzh_blockchain_data_coll.Pairs.{Pair, Entry, pair_entry, symbol_prefix}

-- `SELECT address, count(*) … GROUP BY address`. A null address is a group of its own.
unfoldable pub add_one : Option Str → Dict (Option Str) ℕ → Dict (Option Str) ℕ
unfolding insert lookup
add_one a d = insert a (elim (lookup a d) [ none ↦ 1 | some n ↦ suc n ]) d

unfoldable pub group_logs : List LogRow → Dict (Option Str) ℕ
unfolding add_one
group_logs [] = []
group_logs (r ∷ rs) = add_one r.address (group_logs rs)

-- `ORDER BY n_logs DESC`; the order of equal counts is open in SQL, and here one of them.
unfoldable pub insert_desc : Option Str × ℕ → Dict (Option Str) ℕ → Dict (Option Str) ℕ
insert_desc x [] = x ∷ []
insert_desc x (y ∷ ys) =
    let later = insert_desc x ys in if leb y.1 x.1 then x ∷ y ∷ ys else y ∷ later

unfoldable pub order_desc : Dict (Option Str) ℕ → Dict (Option Str) ℕ
unfolding insert_desc
order_desc [] = []
order_desc (x ∷ xs) = insert_desc x (order_desc xs)

-- `{c["address"].lower(): c for c in …}`
unfoldable pub cfg_dict : List Entry → Dict Str Entry → Dict Str Entry
unfolding insert
cfg_dict [] d = d
cfg_dict (c ∷ cs) d = cfg_dict cs (insert (lower c.address) c d)

-- `s[len(prefix):] if s.startswith(prefix) else s`; the helper gives the rest behind a prefix.
unfoldable pub behind : Str → Str → Option Str
behind [] s = some s
behind (p ∷ prefix) [] = none
behind (p ∷ prefix) (c ∷ s) = let rest = behind prefix s in if p == c then rest else none

unfoldable pub remove_prefix : Str → Str → Str
unfolding behind
remove_prefix s prefix = elim (behind prefix s) [ none ↦ s | some rest ↦ rest ]

-- `contract_colors[category]`
unfoldable pub color_of : Str → Result Str
color_of category =
    if category == str "UniSwapV2Pair"
    then ok (str "lightskyblue")
    else if category == str "erc20"
    then ok (str "green")
    else if category == str "erc721"
    then ok (str "orange")
    else err key_error

-- One `ax.bar(symbol, n_logs, color=…, label=…)`.
pub record Bar : Type 0 where
  pub symbol : Str
  pub n_logs : ℕ
  pub color : Str
  pub label : Str

-- The loop over the groups: the configured contracts with their counts. `None` has no `lower`.
unfoldable pub configured_logs : Dict Str Entry → Dict (Option Str) ℕ → Result (List (Entry × ℕ))
unfolding lookup
configured_logs cfg [] = ok []
configured_logs cfg ((none, n) ∷ groups) = err attribute_error
configured_logs cfg ((some a, n) ∷ groups) = elim (configured_logs cfg groups) [
  | err e ↦ err e
  | ok rest ↦ elim (lookup (lower a) cfg) [ none ↦ ok rest | some c ↦ ok ((c, n) ∷ rest) ]
]

unfoldable pub bar_of : Entry → ℕ → Result Bar
unfolding remove_prefix color_of
bar_of c n = elim (color_of c.category) [
  | err e ↦ err e
  | ok color ↦ ok (record {
    symbol = remove_prefix c.symbol symbol_prefix;
    n_logs = n;
    color = color;
    label = c.category;
  })
]

-- The loop over the symbols.
unfoldable pub bars : List (Entry × ℕ) → Result (List Bar)
unfolding bar_of
bars [] = ok []
bars ((c, n) ∷ cs) = elim (bar_of c n) [
  | err e ↦ err e
  | ok b ↦ elim (bars cs) [ err e ↦ err e | ok bs ↦ ok (b ∷ bs) ]
]

unfoldable pub plot_others : List Entry → List LogRow → Result (List Bar)
unfolding configured_logs bars order_desc group_logs cfg_dict
plot_others contracts logs =
    elim (configured_logs (cfg_dict contracts []) (order_desc (group_logs logs))) [
      | err e ↦ err e
      | ok cs ↦ bars cs
    ]

-- The bar of a contract that etc/get_top_uniswap_pairs.py prints has the symbols of its tokens.
pub bar_of-pair_entry :
    (events : List Str) (pair : Pair) (n : ℕ)
    → bar_of (pair_entry events pair) n
      ≡ ok (record {
        symbol = pair.token0_symbol ++ (b'-' ∷ pair.token1_symbol);
        n_logs = n;
        color = str "lightskyblue";
        label = str "UniSwapV2Pair";
      })
unfolding bar_of pair_entry remove_prefix color_of list_eq nat_eq behind
bar_of-pair_entry events pair n = refl

-- The logs of an address.
unfoldable pub count_logs : Option Str → List LogRow → ℕ
count_logs a [] = 0
count_logs a (r ∷ rs) = let rest = count_logs a rs in if a == r.address then suc rest else rest

abbrev some_logs : ℕ → Option ℕ
some_logs zero = none
some_logs (suc n) = some (suc n)

-- Each address with logs is in one group, with the number of its logs.
pub lookup-group_logs :
    (a : Option Str) (rows : List LogRow)
    → lookup a (group_logs rows) ≡ some_logs (count_logs a rows)
unfolding group_logs add_one lookup count_logs
lookup-group_logs a [] = refl
lookup-group_logs a (r ∷ rs) =
    let d = group_logs rs in
    let n = elim (lookup r.address d) as (λ _. ℕ) [ none ↦ 1 | some k ↦ suc k ] in
    ground
      (arith, lookup-group_logs a rs, lookup-group_logs r.address rs, lookup-insert a r.address n d)
