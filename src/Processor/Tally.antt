-- ===== src/Processor/Tally.antt =====
-- The loop of `_handle_transaction_events` against a description of its result by list functions.
use uzh_blockchain_data_coll.Base.{
  ℕ, ◌+◌, Option, some, Bool, true, false, List, [], ◌∷◌, ◌++◌, ◌≡◌, refl, arith, keep, map, ◌==◌,
  contains, list_eq, nat_eq, pair_eq, append_assoc, append-nil, if◌then◌else◌, Bool-cases, inl, inr,
}
use uzh_blockchain_data_coll.Base.Int.{ℤ, pos, ◌+ℤ◌, ◌-ℤ◌, int_laws}
use uzh_blockchain_data_coll.Base.Text.{Str}
use uzh_blockchain_data_coll.Errors.{ok}
use uzh_blockchain_data_coll.Db.{insert_nft_transfer}
use uzh_blockchain_data_coll.Db.Tables.{Db, nft_key}
use uzh_blockchain_data_coll.Db.Table.{insert_row}
use uzh_blockchain_data_coll.Events.Types.{
  ContractEvent, EventBody, mint_fungible, burn_fungible, mint_pair, burn_pair, swap_pair,
  transfer_non_fungible, event_name,
}
use uzh_blockchain_data_coll.Processor.Handlers.{
  Tally, count_event, store_event, is_relevant, handle_event, event_loop,
}

-- The value that an event adds to the supply, and the value that it takes from it.
abbrev pub mint_value : EventBody → ℕ
mint_value (mint_fungible v) = v
mint_value _ = 0

abbrev pub burn_value : EventBody → ℕ
burn_value (burn_fungible v) = v
burn_value _ = 0

-- What flows into and out of the two reserves of a pair.
abbrev pub in_values : EventBody → ℕ × ℕ
in_values (mint_pair s a b) = (a, b)
in_values (swap_pair s d a b c e) = (a, b)
in_values _ = (0, 0)

abbrev pub out_values : EventBody → ℕ × ℕ
out_values (burn_pair s d a b) = (a, b)
out_values (swap_pair s d a b c e) = (c, e)
out_values _ = (0, 0)

abbrev pub total : (EventBody → ℕ) → List ContractEvent → ℕ
total f [] = 0
total f (e ∷ es) = f e.body + total f es

-- The events whose name is allowed and that the contract at `a` has emitted.
abbrev pub counts : List Str → Str → ContractEvent → Bool
counts allowed a e = if contains allowed (event_name e.body) then e.address == a else false

abbrev pub relevant : List Str → Str → List ContractEvent → List ContractEvent
relevant allowed a = keep (counts allowed a)

abbrev pub index_of : ContractEvent → Option ℕ
index_of e = some e.log_index

abbrev pub last_of : Option ContractEvent → List ContractEvent → Option ContractEvent
last_of o [] = o
last_of o (e ∷ es) = last_of (some e) es

-- The tally after relevant events `sel` of all events `es`.
abbrev pub after : Tally → List ContractEvent → List ContractEvent → Tally
after t es sel = record {
  log_indices = t.log_indices ++ map index_of sel;
  amount_changed = t.amount_changed +ℤ (pos (total mint_value sel) -ℤ pos (total burn_value sel));
  amount0_changed =
      t.amount0_changed
      +ℤ (pos (total (λ b. (in_values b).0) sel) -ℤ pos (total (λ b. (out_values b).0) sel));
  amount1_changed =
      t.amount1_changed
      +ℤ (pos (total (λ b. (in_values b).1) sel) -ℤ pos (total (λ b. (out_values b).1) sel));
  last = last_of t.last es;
}

count_event_lem :
    (b : EventBody) (t : Tally)
    → count_event b t ≡ record t {
      amount_changed = t.amount_changed +ℤ (pos (mint_value b) -ℤ pos (burn_value b));
      amount0_changed = t.amount0_changed +ℤ (pos (in_values b).0 -ℤ pos (out_values b).0);
      amount1_changed = t.amount1_changed +ℤ (pos (in_values b).1 -ℤ pos (out_values b).1);
    }
unfolding count_event
count_event_lem (mint_fungible v) t = grind int_laws
count_event_lem (burn_fungible v) t = grind int_laws
count_event_lem (mint_pair s a b) t = grind int_laws
count_event_lem (burn_pair s d a b) t = grind int_laws
count_event_lem (swap_pair s d a b c e) t = grind int_laws
count_event_lem _ t = grind int_laws

-- The row of an NFT transfer, put into its table.
abbrev pub store_one : {F : Type 0} → Str → ContractEvent → EventBody → Db F → Db F
store_one h e (transfer_non_fungible src dst token_id) db = record db {
  nft_transfer =
      (insert_row nft_key
        (record {
          transaction_hash = some h;
          log_index = e.log_index;
          address = e.address;
          from_address = src;
          to_address = dst;
          token_id = token_id;
        })
        db.nft_transfer).1;
}
store_one h e _ db = db

abbrev pub store_all : {F : Type 0} → Str → List ContractEvent → Db F → Db F
store_all h [] db = db
store_all h (e ∷ es) db = store_all h es (store_one h e e.body db)

store_event_lem :
    {F : Type 0} (h : Str) (e : ContractEvent) (b : EventBody) (db : Db F)
    → store_event (some h) e b db ≡ (ok tt, store_one h e b db)
unfolding store_event insert_nft_transfer insert_row
store_event_lem h e (transfer_non_fungible src dst token_id) db = refl
store_event_lem h e _ db = refl

after-irrelevant :
    (t : Tally) (e : ContractEvent) (es sel : List ContractEvent)
    → after (record t { last = some e }) es sel ≡ after t (e ∷ es) sel
after-irrelevant t e es sel = refl

add_zero : (x : ℤ) → x +ℤ (pos 0 -ℤ pos 0) ≡ x
add_zero x = omega int_laws

shift :
    (x : ℤ) (a b c d : ℕ)
    → x +ℤ (pos a -ℤ pos b) +ℤ (pos c -ℤ pos d) ≡ x +ℤ (pos (a + c) -ℤ pos (b + d))
shift x a b c d = omega int_laws

after-relevant :
    (t : Tally) (e : ContractEvent) (es sel : List ContractEvent)
    → after
        (count_event e.body
          (record t { log_indices = t.log_indices ++ (some e.log_index ∷ []); last = some e }))
        es
        sel
      ≡ after t (e ∷ es) (e ∷ sel)
after-relevant t e es sel = rw (count_event_lem e.body) (simp (append_assoc, shift))

abbrev counted : Tally → ContractEvent → Tally
counted t e =
    count_event e.body
      (record t { log_indices = t.log_indices ++ (some e.log_index ∷ []); last = some e })

handle_event-relevant :
    {F : Type 0} (allowed : List Str) (a h : Str) (e : ContractEvent) (t : Tally) (db : Db F)
    → counts allowed a e ≡ true
    → handle_event (some allowed) a (some h) e t db ≡ (
      ok (
          count_event e.body
            (record t { log_indices = t.log_indices ++ (some e.log_index ∷ []); last = some e })),
      store_one h e e.body db,
    )
unfolding is_relevant handle_event
handle_event-relevant allowed a h e t db c = ground (arith, store_event_lem h e e.body db)

handle_event-irrelevant :
    {F : Type 0} (allowed : List Str) (a h : Str) (e : ContractEvent) (t : Tally) (db : Db F)
    → counts allowed a e ≡ false
    → handle_event (some allowed) a (some h) e t db ≡ (ok (record t { last = some e }), db)
unfolding is_relevant handle_event
handle_event-irrelevant allowed a h e t db c = ground arith

-- The loop, over any tally: the indices, sums and NFT rows of the relevant events, no others.
pub event_loop_lem :
    {F : Type 0} (allowed : List Str) (a h : Str) (es : List ContractEvent) (t : Tally) (db : Db F)
    → let sel = relevant allowed a es in
      event_loop (some allowed) a (some h) es t db ≡ (ok (after t es sel), store_all h sel db)
unfolding event_loop
event_loop_lem allowed a h [] t db = simp (append-nil, add_zero)
event_loop_lem allowed a h (e ∷ es) t db = elim (Bool-cases (counts allowed a e)) [
  | inl c ↦ ground (
    arith,
    handle_event-relevant allowed a h e t db,
    event_loop_lem allowed a h es (counted t e) (store_one h e e.body db),
    after-relevant t e es (relevant allowed a es),
  )
  | inr c ↦ ground (
    arith,
    handle_event-irrelevant allowed a h e t db,
    event_loop_lem allowed a h es (record t { last = some e }) db,
  )
]

-- The NFT rows leave every other table alone.
store_one-others :
    {F : Type 0} (h : Str) (e : ContractEvent) (b : EventBody) (db : Db F)
    → store_one h e b db ≡ record db { nft_transfer = (store_one h e b db).nft_transfer }
store_one-others h e (transfer_non_fungible src dst token_id) db = refl
store_one-others h e _ db = refl

pub store_all-others :
    {F : Type 0} (h : Str) (es : List ContractEvent) (db : Db F)
    → store_all h es db ≡ record db { nft_transfer = (store_all h es db).nft_transfer }
store_all-others h [] db = refl
store_all-others h (e ∷ es) db =
    ground (arith, store_all-others h es (store_one h e e.body db), store_one-others h e e.body db)
