-- ===== src/Processor/Conservation.antt =====
-- The mints and burns that are counted for an ERC20 contract, against the balances of its holders.
use mathlib.Core.Path.{subst}
use uzh_blockchain_data_coll.Base.{
  ℕ, ◌+◌, true, false, List, [], ◌∷◌, ◌++◌, ◌&&◌, not, ◌==◌, contains, keep, list_eq, nat_eq, All,
  ◌≡◌, refl, arith, Bool-cases, inl, inr,
}
use uzh_blockchain_data_coll.Base.Int.{ℤ, pos, ◌+ℤ◌, ◌-ℤ◌, int_laws}
use uzh_blockchain_data_coll.Base.Text.{Str, str}
use uzh_blockchain_data_coll.Model.{erc20}
use uzh_blockchain_data_coll.World.{World, EventLog, TransferArgs}
use uzh_blockchain_data_coll.Events.{
  burn_addresses, transfer_events, issue_events, redeem_events, yield_all, get_transaction_events,
  get_transaction_events-erc20,
}
use uzh_blockchain_data_coll.Events.Balances.{
  apply_all, held, AreDistinct, received, paid, counted_if, held-apply_all,
}
use uzh_blockchain_data_coll.Events.Types.{ContractEvent, EventBody, event_name}
use uzh_blockchain_data_coll.Processor.Tally.{relevant, total, mint_value, burn_value}
use uzh_blockchain_data_coll.Processor.Supply.{supply_change}

relevant-append :
    (allowed : List Str) (a : Str) (xs ys : List ContractEvent)
    → relevant allowed a (xs ++ ys) ≡ relevant allowed a xs ++ relevant allowed a ys
relevant-append allowed a [] ys = refl
relevant-append allowed a (x ∷ xs) ys = ground (arith, relevant-append allowed a xs ys)

total-append :
    (f : EventBody → ℕ) (xs ys : List ContractEvent) → total f (xs ++ ys) ≡ total f xs + total f ys
total-append f [] ys = omega arith
total-append f (x ∷ xs) ys = omega (arith, total-append f xs ys)

total-relevant-append :
    (f : EventBody → ℕ) (allowed : List Str) (a : Str) (xs ys : List ContractEvent)
    → total f (relevant allowed a (xs ++ ys))
      ≡ total f (relevant allowed a xs) + total f (relevant allowed a ys)
total-relevant-append f allowed a xs ys =
    rw (relevant-append allowed a xs ys)
      (total-append f (relevant allowed a xs) (relevant allowed a ys))

-- The logs that the contract at a has emitted.
abbrev pub own : {A : Type 0} → Str → List (EventLog A) → List (EventLog A)
own a = keep (λ l. l.address == a)

-- The values of the transfers from one burn address to another.
pub strayed : List (EventLog TransferArgs) → ℕ
strayed [] = 0
strayed (l ∷ ls) =
    counted_if (contains burn_addresses l.args.src && contains burn_addresses l.args.dst)
      l.args.value
    + strayed ls

-- The values of logs of the events Issue and Redeem.
pub amounts : List (EventLog ℕ) → ℕ
amounts [] = 0
amounts (l ∷ ls) = l.args + amounts ls

-- The holders are all addresses of these transfers but the burn addresses.
abbrev pub Covers : List Str → EventLog TransferArgs → Type 0
Covers hs l =
    (l.event ≡ str "Transfer")
    × (contains hs l.args.src ≡ not (contains burn_addresses l.args.src))
    × (contains hs l.args.dst ≡ not (contains burn_addresses l.args.dst))

balance :
    (x : ℤ) (into out strays mint burn issue redeem : ℕ)
    → into + burn + issue ≡ out + mint + redeem + strays
    → x +ℤ (pos into -ℤ pos out) +ℤ pos issue
      ≡ x +ℤ (pos mint -ℤ pos burn) +ℤ pos redeem +ℤ pos strays
balance x into out strays mint burn issue redeem h = omega int_laws

module _ (allowed : List Str) (a : Str) (mints : contains allowed (str "MintFungibleEvent") ≡ true)
    (burns : contains allowed (str "BurnFungibleEvent") ≡ true) where
  abbrev minted : List ContractEvent → ℕ
  minted es = total mint_value (relevant allowed a es)

  abbrev burned : List ContractEvent → ℕ
  burned es = total burn_value (relevant allowed a es)

  other_log :
      (l : EventLog TransferArgs)
      → (l.address == a) ≡ false
      → (minted (transfer_events l) ≡ 0) × (burned (transfer_events l) ≡ 0)
  unfolding transfer_events event_name
  other_log l other = (ground arith, ground arith)

  own_log :
      (hs : List Str) (l : EventLog TransferArgs)
      → (l.address == a) ≡ true
      → Covers hs l
      → received hs (l ∷ []) + burned (transfer_events l)
        ≡ paid hs (l ∷ []) + minted (transfer_events l) + strayed (l ∷ [])
  unfolding transfer_events event_name received paid strayed
  own_log hs l mine (named, from, to) = ground arith

  minted-append : (xs ys : List ContractEvent) → minted (xs ++ ys) ≡ minted xs + minted ys
  minted-append xs ys = total-relevant-append mint_value allowed a xs ys

  burned-append : (xs ys : List ContractEvent) → burned (xs ++ ys) ≡ burned xs + burned ys
  burned-append xs ys = total-relevant-append burn_value allowed a xs ys

  All-own :
      (hs : List Str) (l : EventLog TransferArgs) (ls : List (EventLog TransferArgs))
      → (l.address == a) ≡ true
      → All (Covers hs) (own a (l ∷ ls))
      → Covers hs l × All (Covers hs) (own a ls)
  All-own hs l ls mine covered =
      let e : own a (l ∷ ls) ≡ l ∷ own a ls = ground arith in subst (All (Covers hs)) e covered

  All-own_other :
      (hs : List Str) (l : EventLog TransferArgs) (ls : List (EventLog TransferArgs))
      → (l.address == a) ≡ false
      → All (Covers hs) (own a (l ∷ ls))
      → All (Covers hs) (own a ls)
  All-own_other hs l ls other covered =
      let e : own a (l ∷ ls) ≡ own a ls = ground arith in subst (All (Covers hs)) e covered

  transfers_lem :
      (hs : List Str) (ls : List (EventLog TransferArgs))
      → All (Covers hs) (own a ls)
      → received hs (own a ls) + burned (yield_all transfer_events ls)
        ≡ paid hs (own a ls) + minted (yield_all transfer_events ls) + strayed (own a ls)
  unfolding yield_all received paid strayed
  transfers_lem hs [] covered = omega arith
  transfers_lem hs (l ∷ ls) covered = elim (Bool-cases (l.address == a)) [
    | inl mine ↦
        let (here, rest) = All-own hs l ls mine covered in
        let one = own_log hs l mine here in
        let ih = transfers_lem hs ls rest in
        ground (
          arith,
          one,
          ih,
          minted-append (transfer_events l) (yield_all transfer_events ls),
          burned-append (transfer_events l) (yield_all transfer_events ls),
        )
    | inr other ↦
        let (m, b) = other_log l other in
        ground (
          arith,
          m,
          b,
          transfers_lem hs ls (All-own_other hs l ls other covered),
          minted-append (transfer_events l) (yield_all transfer_events ls),
          burned-append (transfer_events l) (yield_all transfer_events ls),
        )
  ]

  issues_lem :
      (ls : List (EventLog ℕ))
      → (minted (yield_all issue_events ls) ≡ amounts (own a ls))
        × (burned (yield_all issue_events ls) ≡ 0)
  unfolding yield_all issue_events event_name amounts
  issues_lem [] = (refl, refl)
  issues_lem (l ∷ ls) =
      let (m, b) = issues_lem ls in
      elim (Bool-cases (l.address == a)) [
        | inl mine ↦ (ground (arith, m), ground (arith, b))
        | inr other ↦ (ground (arith, m), ground (arith, b))
      ]

  redeems_lem :
      (ls : List (EventLog ℕ))
      → (minted (yield_all redeem_events ls) ≡ 0)
        × (burned (yield_all redeem_events ls) ≡ amounts (own a ls))
  unfolding yield_all redeem_events event_name amounts
  redeems_lem [] = (refl, refl)
  redeems_lem (l ∷ ls) =
      let (m, b) = redeems_lem ls in
      elim (Bool-cases (l.address == a)) [
        | inl mine ↦ (ground (arith, m), ground (arith, b))
        | inr other ↦ (ground (arith, m), ground (arith, b))
      ]

  -- For an ERC20 contract with mints and burns among its allowed events, and distinct holders
  -- that are all addresses of its Transfer logs but the burn addresses: the sum of the holders'
  -- balances after the transfers, with the amounts of its Issue logs, is the sum before them,
  -- with the supply change that is counted, the amounts of its Redeem logs, and the values of
  -- the transfers from one burn address to another.
  pub supply_change-held :
      (W : World) (c : W.Contract) (r : W.Receipt) (hs : List Str) (b : Str → ℤ)
      → AreDistinct hs
      → All (Covers hs) (own a (W.transfer_logs c r))
      → let ls = own a (W.transfer_logs c r) in
        held hs (apply_all ls b) +ℤ pos (amounts (own a (W.issue_logs c r)))
        ≡ held hs b
          +ℤ supply_change (relevant allowed a (get_transaction_events W erc20 c r))
          +ℤ pos (amounts (own a (W.redeem_logs c r)))
          +ℤ pos (strayed ls)
  supply_change-held W c r hs b distinct covered =
      let ts = yield_all transfer_events (W.transfer_logs c r) in
      let is = yield_all issue_events (W.issue_logs c r) in
      let rs = yield_all redeem_events (W.redeem_logs c r) in
      let ls = own a (W.transfer_logs c r) in
      let (im, ib) = issues_lem (W.issue_logs c r) in
      let (rm, rb) = redeems_lem (W.redeem_logs c r) in
      rw (get_transaction_events-erc20 W c r, held-apply_all ls hs b distinct)
        (balance (held hs b) (received hs ls) (paid hs ls) (strayed ls) (minted (ts ++ (is ++ rs)))
          (burned (ts ++ (is ++ rs))) (amounts (own a (W.issue_logs c r)))
          (amounts (own a (W.redeem_logs c r)))
          (omega (
            arith,
            transfers_lem hs (W.transfer_logs c r) covered,
            minted-append ts (is ++ rs),
            minted-append is rs,
            burned-append ts (is ++ rs),
            burned-append is rs,
            im,
            ib,
            rm,
            rb,
          )))
