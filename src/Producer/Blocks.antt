-- ===== src/Producer/Blocks.antt =====
-- `_start_producer` writes exactly the blocks that the node serves, and it cannot go on without an
-- end block.
use mathlib.Core.Path.{subst}
use uzh_blockchain_data_coll.Base.{
  length, ◌⊎◌, append-nil, append_assoc, sym, ap, ◌∙◌, ◌++◌, List, [], ◌∷◌, refl, ℕ, zero, suc, ◌+◌,
  ◌≤◌, ◌<◌, Option, none, some, Bool, ◌≡◌, arith, nat_eq, inl, inr,
}
use uzh_blockchain_data_coll.Explorer.{get_exploration_bounds}
use uzh_blockchain_data_coll.Producer.{
  IsReliable, start_producer, catch_block_not_found, Topic, State, should_continue,
  log_producer_progress, block_row, encode_all, send_transactions, block_reward_of, produce_block,
  produce_loop,
}
use uzh_blockchain_data_coll.Base.Text.{Str}
use uzh_blockchain_data_coll.Errors.{Result, ok, err, type_error, block_not_found}
use uzh_blockchain_data_coll.Model.{Mode}
use uzh_blockchain_data_coll.Model.Rows.{BlockData}
use uzh_blockchain_data_coll.World.{World}
use uzh_blockchain_data_coll.Db.{insert_block}
use uzh_blockchain_data_coll.Db.Table.{insert_row}
use uzh_blockchain_data_coll.Db.Tables.{BlockRow, block_key}

-- The rows of blocks with their rewards, inserted in order.
abbrev pub write_blocks : List (BlockData × ℕ) → List BlockRow → List BlockRow
write_blocks [] rows = rows
write_blocks ((d, r) ∷ bs) rows = write_blocks bs (insert_row block_key (block_row d r) rows).1

-- The messages of blocks, in order.
abbrev pub block_messages : Mode → List (BlockData × ℕ) → List Str
block_messages mode [] = []
block_messages mode ((d, r) ∷ bs) = encode_all mode d.transactions ++ block_messages mode bs

module _ (W : World) (T : Topic) (L : IsReliable T) (mode : Mode) (reward : Bool) (e : ℕ) where
  -- The node serves these blocks and rewards from block i on.
  abbrev pub Serves : ℕ → List (BlockData × ℕ) → Type 0
  Serves i [] = Unit
  Serves i ((d, r) ∷ bs) =
      (W.get_block i ≡ ok d) × (block_reward_of W T reward i ≡ ok r) × Serves (i + 1) bs

  send_transactions_lem :
      (hs : List Str) (s : State W.Float T.State)
      → L.Good s.topic
      → (k' : T.State) × (send_transactions W T mode hs s ≡ (ok tt, record s { topic = k' }))
        × L.Good k'
        × (L.messages k' ≡ L.messages s.topic ++ encode_all mode hs)
  unfolding send_transactions
  send_transactions_lem [] s g = (s.topic, refl, g, sym (append-nil _))
  send_transactions_lem (h ∷ hs) s g =
      let (k', sent, g', m) = L.send (encode_all mode (h ∷ hs)) s.topic g in
      (k', ground (arith, sent), g', m)

  produce_block_lem :
      (i : ℕ) (d : BlockData) (r : ℕ) (s : State W.Float T.State)
      → L.Good s.topic
      → W.get_block i ≡ ok d
      → block_reward_of W T reward i ≡ ok r
      → (k' : T.State) × (produce_block W T mode reward (some e) i s ≡ (
        ok tt,
        record {
          db = record (s.db) { block = write_blocks ((d, r) ∷ []) s.db.block };
          topic = k';
          i_processed_block = some i;
        },
      ))
        × L.Good k'
        × (L.messages k' ≡ L.messages s.topic ++ encode_all mode d.transactions)
  unfolding produce_block log_producer_progress insert_block insert_row
  produce_block_lem i d r s g found rewarded =
      let s1 : State W.Float T.State = record s {
        db = record (s.db) { block = write_blocks ((d, r) ∷ []) s.db.block };
      } in
      let (k', sent, g', m) = send_transactions_lem d.transactions s1 g in
      (k', ground (arith, sent), g', m)

  -- Why the loop stops behind block j - 1: j is past the end block, or the node does not have it.
  abbrev pub StopsAt : ℕ → Type 0
  StopsAt j = (j ≡ e + 1) ⊎ ((j < e + 1) × (W.get_block j ≡ err block_not_found))

  -- The number of the last of the blocks from i on.
  abbrev pub last_block : Option ℕ → ℕ → List (BlockData × ℕ) → Option ℕ
  last_block o i [] = o
  last_block o i (b ∷ bs) = last_block (some i) (i + 1) bs

  -- What the loop leaves behind after these blocks.
  record Written (s : State W.Float T.State) (i : ℕ) (bs : List (BlockData × ℕ))
      (o : Option (Result (Unit {0}) × State W.Float T.State)) : Type 0 where
    final : State W.Float T.State
    ends : catch_block_not_found W T o ≡ some (ok tt, final)
    blocks : final.db ≡ record (s.db) { block = write_blocks bs s.db.block }
    sent : L.messages final.topic ≡ L.messages s.topic ++ block_messages mode bs
    processed : final.i_processed_block ≡ last_block s.i_processed_block i bs
    good : L.Good final.topic

  produce_block_missing :
      (i : ℕ) (s : State W.Float T.State)
      → W.get_block i ≡ err block_not_found
      → produce_block W T mode reward (some e) i s ≡ (err block_not_found, s)
  unfolding produce_block
  produce_block_missing i s missing = ground arith

  StopsAt-le : (j : ℕ) → StopsAt j → j ≤ e + 1
  StopsAt-le j stops = omega arith

  produce_loop_stops :
      (fuel i : ℕ) (s : State W.Float T.State)
      → StopsAt i
      → catch_block_not_found W T (produce_loop W T mode reward (some e) (suc fuel) i s)
        ≡ some (ok tt, s)
  unfolding produce_loop should_continue
  produce_loop_stops fuel i s (inl past) = ground arith
  produce_loop_stops fuel i s (inr (before, missing)) =
      ground (arith, produce_block_missing i s missing)

  produce_loop_next :
      (fuel i : ℕ) (s s' : State W.Float T.State)
      → i ≤ e
      → produce_block W T mode reward (some e) i s ≡ (ok tt, s')
      → produce_loop W T mode reward (some e) (suc fuel) i s
        ≡ produce_loop W T mode reward (some e) fuel (i + 1) s'
  unfolding produce_loop should_continue
  produce_loop_next fuel i s s' le step = ground arith

  produce_loop_writes :
      (bs : List (BlockData × ℕ)) (fuel i j : ℕ) (s : State W.Float T.State)
      → L.Good s.topic
      → Serves i bs
      → j ≡ i + length bs
      → StopsAt j
      → length bs < fuel
      → Written s i bs (produce_loop W T mode reward (some e) fuel i s)
  produce_loop_writes bs zero i j s g serves at stops lt = absurd (omega arith)
  produce_loop_writes [] (suc fuel) i j s g serves at stops lt =
      let here : j ≡ i = omega arith in
      record {
        final = s;
        ends = produce_loop_stops fuel i s (subst StopsAt here stops);
        blocks = refl;
        sent = sym (append-nil _);
        processed = refl;
        good = g;
      }
  produce_loop_writes ((d, r) ∷ bs) (suc fuel) i j s g serves at stops lt =
      let (k', step, g', m) = produce_block_lem i d r s g serves.0 serves.1 in
      let s' : State W.Float T.State = record {
        db = record (s.db) { block = write_blocks ((d, r) ∷ []) s.db.block };
        topic = k';
        i_processed_block = some i;
      } in
      let le = StopsAt-le j stops in
      let rest =
        produce_loop_writes bs fuel (i + 1) j s' g' serves.2 (omega arith) stops (omega arith) in
      record {
        final = rest.final;
        ends =
            ap (catch_block_not_found W T) (produce_loop_next fuel i s s' (omega arith) step)
            ∙ rest.ends;
        blocks = rest.blocks;
        sent =
            rest.sent
            ∙ ap (λ t. t ++ block_messages mode bs) m
            ∙ append_assoc (L.messages s.topic) (encode_all mode d.transactions)
                (block_messages mode bs);
        processed = rest.processed;
        good = rest.good;
      }

  -- A producer with a configured range, over a reliable topic and a node that serves some blocks
  -- and then stops (at the end of the range or for want of the next block), returns normally:
  -- the block table gets exactly the rows of these blocks, the topic exactly one message for
  -- each transaction, in order, and the last block is noted.
  pub start_producer_writes :
      (bs : List (BlockData × ℕ)) (fuel i : ℕ) (s : State W.Float T.State)
      → L.Good s.topic
      → Serves i bs
      → StopsAt (i + length bs)
      → length bs < fuel
      → (s' : State W.Float T.State) × (start_producer W T fuel reward
            (record { mode = mode; start_block = some i; end_block = some e })
            s
          ≡ some (ok tt, s'))
        × (s'.db ≡ record (s.db) { block = write_blocks bs s.db.block })
        × (L.messages s'.topic ≡ L.messages s.topic ++ block_messages mode bs)
        × (s'.i_processed_block ≡ last_block none i bs)
        × L.Good s'.topic
  unfolding start_producer get_exploration_bounds
  start_producer_writes bs fuel i s g serves stops lt =
      let s0 : State W.Float T.State = record s { i_processed_block = none } in
      let w = produce_loop_writes bs fuel i (i + length bs) s0 g serves refl stops lt in
      (w.final, w.ends, w.blocks, w.sent, w.processed, w.good)

  produce_block_breaks :
      (i : ℕ) (d : BlockData) (r : ℕ) (s : State W.Float T.State) (k' : T.State)
      → W.get_block i ≡ ok d
      → block_reward_of W T reward i ≡ ok r
      → let s1 : State W.Float T.State = record s {
        db = record (s.db) { block = write_blocks ((d, r) ∷ []) s.db.block };
      } in
        send_transactions W T mode d.transactions s1 ≡ (ok tt, record s1 { topic = k' })
        → produce_block W T mode reward none i s
          ≡ (err type_error, record s1 { topic = k'; i_processed_block = some i })
  unfolding produce_block log_producer_progress insert_block insert_row
  produce_block_breaks i d r s k' found rewarded sent = ground arith

  -- Without an end block a producer whose node has the first block and whose topic is reliable
  -- breaks off with a TypeError behind this block, which is written with its messages.
  pub start_producer_no_end :
      (fuel i : ℕ) (d : BlockData) (r : ℕ) (s : State W.Float T.State)
      → L.Good s.topic
      → W.get_block i ≡ ok d
      → block_reward_of W T reward i ≡ ok r
      → (s' : State W.Float T.State) × (start_producer W T
            (suc fuel)
            reward
            (record { mode = mode; start_block = some i; end_block = none })
            s
          ≡ some (err type_error, s'))
        × (s'.db ≡ record (s.db) { block = write_blocks ((d, r) ∷ []) s.db.block })
        × (L.messages s'.topic ≡ L.messages s.topic ++ encode_all mode d.transactions)
        × (s'.i_processed_block ≡ some i)
  unfolding start_producer get_exploration_bounds should_continue
  start_producer_no_end fuel i d r s g found rewarded =
      let s0 : State W.Float T.State = record s { i_processed_block = none } in
      let s1 : State W.Float T.State = record s0 {
        db = record (s.db) { block = write_blocks ((d, r) ∷ []) s.db.block };
      } in
      let (k', sent, g', m) = send_transactions_lem d.transactions s1 g in
      (
        record s1 { topic = k'; i_processed_block = some i },
        ground (arith, produce_block_breaks i d r s0 k' found rewarded sent),
        refl,
        m,
        refl,
      )
