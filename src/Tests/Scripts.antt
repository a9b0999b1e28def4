-- ===== src/Tests/Scripts.antt =====
-- The benchmark and the overview plot, and the supply of a token.
use uzh_blockchain_data_coll.Base.{
  ℕ, ◌≡◌, ◌↔◌, refl, arith, true, false, List, [], ◌∷◌, leb, contains, nat_eq, list_eq, All,
  if◌then◌else◌,
}
use uzh_blockchain_data_coll.Base.Int.{pos, ◌+ℤ◌}
use uzh_blockchain_data_coll.Base.Text.{Str, str}
use uzh_blockchain_data_coll.Errors.{ok, err, index_error}
use uzh_blockchain_data_coll.Model.{erc20}
use uzh_blockchain_data_coll.World.{World, EventLog, TransferArgs}
use uzh_blockchain_data_coll.Benchmark.{n_requests, benchmark}
use uzh_blockchain_data_coll.Benchmark.Ends.{n_busy, benchmark_ends}
use uzh_blockchain_data_coll.Query.Overview.{
  Sizes, all_sizes, AreDistinguished, plot_overview, own_sizes, AreAscending,
  plot_overview-own_sizes,
}
use uzh_blockchain_data_coll.Events.{get_transaction_events}
use uzh_blockchain_data_coll.Events.Balances.{apply_all, held}
use uzh_blockchain_data_coll.Processor.Tally.{relevant}
use uzh_blockchain_data_coll.Processor.Supply.{supply_change}
use uzh_blockchain_data_coll.Processor.Conservation.{
  own, strayed, amounts, Covers, supply_change-held,
}
use uzh_blockchain_data_coll.Tests.Setting.{small_world, no_rows, block_1, a_transaction}

-- A node with the same block at each number.
abbrev long_world : World
long_world = record small_world { get_block = λ i. ok block_1 }

benchmark_ends_example : (benchmark long_world 7 []).0 ≡ (
    if leb 50 (
      n_busy long_world
        (λ i. block_1)
        a_transaction
        (λ h. [])
        (λ i. record { trace_type = str "reward"; action_value = str "0x0f" } ∷ [])
        (λ i. refl)
        (λ h. refl)
        (λ h. refl)
        (λ i. refl)
        n_requests
        7)
    then ok tt
    else err index_error)
benchmark_ends_example =
    benchmark_ends long_world (λ i. block_1) a_transaction (λ h. [])
      (λ i. record { trace_type = str "reward"; action_value = str "0x0f" } ∷ []) (λ i. refl)
      (λ h. refl) (λ h. refl) (λ i. refl) 7 []

-- The internal transactions take less than the logs; a size is written as one character.
abbrev some_sizes : Sizes
some_sizes = record {
  block = 10;
  transaction = 200;
  internal_transaction = 300;
  transaction_logs = 900;
}

abbrev pretty : ℕ → Str
pretty n = n ∷ []

pretty-AreDistinguished : AreDistinguished pretty (all_sizes some_sizes)
pretty-AreDistinguished x y there there' same = ground arith

plot_overview-own_sizes_example :
    (plot_overview pretty no_rows some_sizes ≡ own_sizes pretty no_rows some_sizes)
    ↔ AreAscending some_sizes
plot_overview-own_sizes_example =
    plot_overview-own_sizes pretty no_rows some_sizes pretty-AreDistinguished

-- A mint, a transfer, a transfer between burn addresses, and a mint of another contract.
abbrev zero_address : Str
zero_address = str "0x0000000000000000000000000000000000000000"

abbrev moved : Str → Str → Str → ℕ → EventLog TransferArgs
moved a src dst v = record {
  event = str "Transfer";
  address = a;
  log_index = 0;
  args = record { src = src; dst = dst; value = v };
}

abbrev token_world : World
token_world = record small_world {
  transfer_logs = λ c r.
      moved (str "0xc0") zero_address (str "0xa1") 50
      ∷ moved (str "0xdd") zero_address (str "0xa1") 9
      ∷ moved (str "0xc0") (str "0xa1") (str "0xa2") 20
      ∷ moved (str "0xc0") zero_address zero_address 3
      ∷ [];
}

abbrev names : List Str
names = str "MintFungibleEvent" ∷ str "BurnFungibleEvent" ∷ []

named :
    (contains names (str "MintFungibleEvent") ≡ true)
    × (contains names (str "BurnFungibleEvent") ≡ true)
unfolding list_eq nat_eq
named = (refl, refl)

abbrev holders : List Str
holders = str "0xa1" ∷ str "0xa2" ∷ []

covered : All (Covers holders) (own (str "0xc0") (token_world.transfer_logs (str "0xc0") tt))
unfolding list_eq nat_eq
covered = ((refl, refl, refl), ((refl, refl, refl), ((refl, refl, refl), tt)))

apart : (contains (str "0xa2" ∷ []) (str "0xa1") ≡ false)
unfolding list_eq nat_eq
apart = refl

supply_change-held_example :
    let ls = own (str "0xc0") (token_world.transfer_logs (str "0xc0") tt) in
    held holders (apply_all ls (λ a. pos 0))
      +ℤ pos (amounts (own (str "0xc0") (token_world.issue_logs (str "0xc0") tt)))
    ≡ held holders (λ a. pos 0)
      +ℤ supply_change
          (relevant names (str "0xc0") (get_transaction_events token_world erc20 (str "0xc0") tt))
      +ℤ pos (amounts (own (str "0xc0") (token_world.redeem_logs (str "0xc0") tt)))
      +ℤ pos (strayed ls)
supply_change-held_example =
    supply_change-held names (str "0xc0") named.0 named.1 token_world (str "0xc0") tt holders
      (λ a. pos 0) (apart, (refl, tt)) covered
