-- ===== src/Processor/Supply.antt =====
-- `_handle_transaction_events` as a whole: what it returns, and which rows it adds.
use mathlib.Core.Path.{ap}
use uzh_blockchain_data_coll.Base.{
  ℕ, Option, none, some, Bool, false, List, map, not, ◌≡◌, refl, arith, ◌||◌, ◌&&◌, ◌==◌, list_eq,
  nat_eq, pair_eq, if◌then◌else◌, Bool-cases, inl, inr,
}
use uzh_blockchain_data_coll.Base.Int.{ℤ, pos, ◌-ℤ◌, ◌+ℤ◌, int_eq, int_laws}
use uzh_blockchain_data_coll.Base.Text.{Str}
use uzh_blockchain_data_coll.Errors.{ok}
use uzh_blockchain_data_coll.Db.Tables.{
  Db, SupplyChangeRow, LiquidityChangeRow, supply_key, liquidity_key,
}
use uzh_blockchain_data_coll.Db.Table.{insert_row, has_key}
use uzh_blockchain_data_coll.Db.Unique.{has_key-insert_row_eq}
use uzh_blockchain_data_coll.Db.{insert_contract_supply_change, insert_pair_liquidity_change}
use uzh_blockchain_data_coll.Events.Types.{ContractEvent}
use uzh_blockchain_data_coll.Processor.Handlers.{
  Tally, no_tally, handle_events, store_supply, store_liquidity,
}
use uzh_blockchain_data_coll.Processor.Tally.{
  store_all-others, after, relevant, index_of, last_of, total, mint_value, burn_value, in_values,
  out_values, store_all, event_loop_lem,
}

abbrev pub net : ℕ → ℕ → ℤ
net a b = pos a -ℤ pos b

-- What the relevant events add to the supply, and to the two reserves of a pair.
abbrev pub supply_change : List ContractEvent → ℤ
supply_change sel = net (total mint_value sel) (total burn_value sel)

abbrev pub reserve0_change : List ContractEvent → ℤ
reserve0_change sel = net (total (λ b. (in_values b).0) sel) (total (λ b. (out_values b).0) sel)

abbrev pub reserve1_change : List ContractEvent → ℤ
reserve1_change sel = net (total (λ b. (in_values b).1) sel) (total (λ b. (out_values b).1) sel)

-- The table of supply changes after one transaction.
abbrev pub put_supply : Str → ℤ → Option ContractEvent → List SupplyChangeRow → List SupplyChangeRow
put_supply h amount none rows = rows
put_supply h amount (some e) rows =
    if amount == pos 0
    then rows
    else (insert_row supply_key
        (record { address = e.address; amount_changed = amount; transaction_hash = some h }) rows).1

-- The table of liquidity changes after one transaction.
abbrev pub put_liquidity : Str → Str → ℤ → ℤ → List LiquidityChangeRow → List LiquidityChangeRow
put_liquidity a h amount0 amount1 rows =
    if (amount0 == pos 0) && (amount1 == pos 0)
    then rows
    else (insert_row liquidity_key
        (record { address = a; amount0 = amount0; amount1 = amount1; transaction_hash = some h })
        rows).1

zero_add : (x : ℤ) → pos 0 +ℤ x ≡ x
zero_add x = omega int_laws

module _ {F : Type 0} (a h : Str) where
  store_supply_lem :
      (t : Tally) (o : Option ContractEvent) (db : Db F)
      → store_supply (some h) t o db ≡ (
        ok tt,
        record db {
          contract_supply_change = put_supply h t.amount_changed o db.contract_supply_change;
        },
      )
  unfolding store_supply insert_contract_supply_change insert_row
  store_supply_lem t none db = refl
  store_supply_lem t (some e) db = elim (Bool-cases (t.amount_changed == pos 0)) [
    | inl z ↦ rw z
    | inr z ↦ rw z
  ]

  store_liquidity_lem :
      (t : Tally) (db : Db F)
      → store_liquidity a (some h) t db ≡ (
        ok tt,
        record db {
          pair_liquidity_change =
              put_liquidity a h t.amount0_changed t.amount1_changed db.pair_liquidity_change;
        },
      )
  unfolding store_liquidity insert_pair_liquidity_change insert_row
  store_liquidity_lem t db = elim (Bool-cases (t.amount0_changed == pos 0)) [
    | inl z ↦ elim (Bool-cases (t.amount1_changed == pos 0)) [
      | inl z' ↦ rw (z, z')
      | inr z' ↦ rw (z, z')
    ]
    | inr z ↦ rw z
  ]

  -- For a contract with allowed events the whole event handler equals a description by list
  -- functions: the NFT rows, the supply row and the liquidity row come from the events with an
  -- allowed name and the contract's address.
  pub handle_events_lem :
      (allowed : List Str) (es : List ContractEvent) (db : Db F)
      → let sel = relevant allowed a es in
        let d = store_all h sel db in
        handle_events (some allowed) a (some h) es db ≡ (
          ok (map index_of sel),
          record d {
            contract_supply_change =
                put_supply h (supply_change sel) (last_of none es) d.contract_supply_change;
            pair_liquidity_change =
                put_liquidity a h
                  (reserve0_change sel)
                  (reserve1_change sel)
                  d.pair_liquidity_change;
          },
        )
  unfolding handle_events
  handle_events_lem allowed es db =
      let sel = relevant allowed a es in
      let t = after no_tally es sel in
      let d = store_all h sel db in
      ground (
        arith,
        event_loop_lem allowed a h es no_tally db,
        store_supply_lem t t.last d,
        store_liquidity_lem t (record d {
          contract_supply_change = put_supply h t.amount_changed t.last d.contract_supply_change;
        }),
        zero_add (supply_change sel),
        zero_add (reserve0_change sel),
        zero_add (reserve1_change sel),
      )

-- Whether the event that the loop variable holds comes from the contract.
abbrev pub is_from : Str → Option ContractEvent → Bool
is_from a none = false
is_from a (some e) = a == e.address

module _ (a h : Str) where
  put_supply-has_key :
      (amount : ℤ) (o : Option ContractEvent) (rows : List SupplyChangeRow)
      → has_key supply_key (a, h) (put_supply h amount o rows)
        ≡ (has_key supply_key (a, h) rows || (not (amount == pos 0) && is_from a o))
  put_supply-has_key amount none rows = ground arith
  put_supply-has_key amount (some e) rows = elim (Bool-cases (amount == pos 0)) [
    | inl z ↦ rw z (ground arith)
    | inr z ↦ rw z (
        ground (
          arith,
          has_key-insert_row_eq supply_key
              (record { address = e.address; amount_changed = amount; transaction_hash = some h })
              (a, h) (e.address, h) rows refl,
        ))
  ]

module _ {F : Type 0} (a h : Str) where
  -- For a contract with allowed events the indices of the logs to save are those of the events
  -- with an allowed name and the contract's address, in order; and the contract's key is in the
  -- supply table afterwards exactly if it was there before, or the mints less the burns of those
  -- events are not 0 and the last event of the receipt comes from the contract.
  pub handle_events_saves :
      (allowed : List Str) (es : List ContractEvent) (db : Db F)
      → let (r, db') = handle_events (some allowed) a (some h) es db in
        let sel = relevant allowed a es in
        (r ≡ ok (map index_of sel))
        × (has_key supply_key (a, h) db'.contract_supply_change ≡ (
            has_key supply_key (a, h) db.contract_supply_change
            || (not (supply_change sel == pos 0) && is_from a (last_of none es))))
  handle_events_saves allowed es db =
      let sel = relevant allowed a es in
      rw (handle_events_lem a h allowed es db) (
        refl,
        rw (ap (λ (d : Db F). d.contract_supply_change) (store_all-others h sel db)) (
            put_supply-has_key a h (supply_change sel) (last_of none es) db.contract_supply_change),
      )
