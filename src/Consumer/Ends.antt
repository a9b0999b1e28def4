-- ===== src/Consumer/Ends.antt =====
-- How a run of a consumer ends: at its first message that cannot be handled, or behind the last.
use uzh_blockchain_data_coll.Base.{
  ◌≤◌, List, [], ◌∷◌, ◌++◌, ◌≡◌, ◌⊎◌, ◌↔◌, inl, inr, refl, ap, arith,
}
use uzh_blockchain_data_coll.Errors.{Exc, Result, ok, err, Result-cases, partitions_empty}
use uzh_blockchain_data_coll.World.{World}
use uzh_blockchain_data_coll.Parser.{ConfigCache, ContractAbi}
use uzh_blockchain_data_coll.Redis.{SortedSet}
use uzh_blockchain_data_coll.Consumer.{
  Event, DataConsumer, handle_message, start_consuming, start_consuming_data, exit_code_of,
}

code_of_raised :
    (x : Exc) → ((exit_code_of (err x) ≡ 0) ↔ (x ≡ partitions_empty)) × (exit_code_of (err x) ≤ 1)
unfolding exit_code_of
code_of_raised partitions_empty = ((λ h. refl, λ h. refl), omega arith)
code_of_raised x = ((λ h. cc, λ h. ground (arith, h)), omega arith)

module _ (W : World) (S : SortedSet) (abi : ContractAbi W.Abi) (cache : ConfigCache) where
  abbrev Self : Type 0
  Self = DataConsumer W S abi cache

  -- A message that is handled is followed by the run over the later ones.
  pub start_consuming-next :
      (e : Event) (es : List Event) (c c' : Self)
      → handle_message W S abi cache e c ≡ (ok tt, c')
      → start_consuming W S abi cache (e ∷ es) c ≡ start_consuming W S abi cache es c'
  unfolding start_consuming
  start_consuming-next e es c c' h = ground (arith, h)

  -- A message whose handling raises ends the run.
  pub start_consuming-raised :
      (e : Event) (es : List Event) (c c' : Self) (x : Exc)
      → handle_message W S abi cache e c ≡ (err x, c')
      → start_consuming W S abi cache (e ∷ es) c ≡ (err x, c')
  unfolding start_consuming
  start_consuming-raised e es c c' x h = ground (arith, h)

  -- All messages, in order, are handled without an exception, from the first state to the second.
  pub data Handles : List Event → Self → Self → Type 0 where
    none_left : {c : Self} → Handles [] c c
    next_one :
        {e : Event} {es : List Event} {c c1 c' : Self}
        → handle_message W S abi cache e c ≡ (ok tt, c1)
        → Handles es c1 c'
        → Handles (e ∷ es) c c'

  -- The messages up to one are handled, and the handling of this one raises x.
  pub record Breaks (es : List Event) (c c' : Self) (x : Exc) : Type 0 where
    pub before : List Event
    pub failing : Event
    pub after : List Event
    pub reached : Self
    pub split : es ≡ before ++ (failing ∷ after)
    pub handled : Handles before c reached
    pub raised : handle_message W S abi cache failing reached ≡ (err x, c')

  Breaks-next :
      (e : Event) (es : List Event) (c c1 c' : Self) (x : Exc)
      → handle_message W S abi cache e c ≡ (ok tt, c1)
      → Breaks es c1 c' x
      → Breaks (e ∷ es) c c' x
  Breaks-next e es c c1 c' x h b = record {
    before = e ∷ b.before;
    failing = b.failing;
    after = b.after;
    reached = b.reached;
    split = ap (λ l. e ∷ l) b.split;
    handled = next_one h b.handled;
    raised = b.raised;
  }

  -- What the run does, before its end is turned into an exit code.
  Ending : List Event → Self → Result (Unit {0}) × Self → Type 0
  Ending es c (r, c') =
      (Handles es c c' × (r ≡ err partitions_empty)) ⊎ ((x : Exc) × Breaks es c c' x × (r ≡ err x))

  Ending-next :
      (e : Event) (es : List Event) (c c1 : Self) (out : Result (Unit {0}) × Self)
      → handle_message W S abi cache e c ≡ (ok tt, c1)
      → Ending es c1 out
      → Ending (e ∷ es) c out
  unfolding Ending
  Ending-next e es c c1 (r, c') h (inl (all, dry)) = inl (next_one h all, dry)
  Ending-next e es c c1 (r, c') h (inr (x, broken, raised)) =
      inr (x, Breaks-next e es c c1 c' x h broken, raised)

  Ending-raised :
      (e : Event) (es : List Event) (c c' : Self) (x : Exc)
      → handle_message W S abi cache e c ≡ (err x, c')
      → Ending (e ∷ es) c (err x, c')
  unfolding Ending
  Ending-raised e es c c' x h =
      let broken : Breaks (e ∷ es) c c' x = record {
        before = [];
        failing = e;
        after = es;
        reached = c;
        split = refl;
        handled = none_left;
        raised = h;
      } in
      inr (x, broken, refl)

  start_consuming-Ending :
      (es : List Event) (c : Self) → Ending es c (start_consuming W S abi cache es c)
  start_consuming-Ending [] c = unfold start_consuming Ending in inl (none_left, refl)
  start_consuming-Ending (e ∷ es) c =
      let (r, c1) = handle_message W S abi cache e c in
      elim (Result-cases r) [
        | inl (u, h) ↦
            let one : handle_message W S abi cache e c ≡ (ok tt, c1) = ap (λ q. (q, c1)) h in
            rw (start_consuming-next e es c c1 one)
              (Ending-next e es c c1 _ one (start_consuming-Ending es c1))
        | inr (x, h) ↦
            let one : handle_message W S abi cache e c ≡ (err x, c1) = ap (λ q. (q, c1)) h in
            rw (start_consuming-raised e es c c1 x one) (Ending-raised e es c c1 x one)
      ]

  -- A run over some events ends in one of two ways. Either all of them are handled and the exit
  -- code is 0; or those up to one are handled and the handling of this one raises, and then the
  -- run ends in the state that it leaves, whatever comes later, with the exit code 0 if what it
  -- raised says that the partitions are empty, and else 1.
  pub start_consuming_data-ends :
      (es : List Event) (c : Self)
      → let (code, c') = start_consuming_data W S abi cache es c in
        (Handles es c c' × (code ≡ 0))
        ⊎ ((x : Exc) × Breaks es c c' x × ((code ≡ 0) ↔ (x ≡ partitions_empty)) × (code ≤ 1))
  unfolding start_consuming_data Ending
  start_consuming_data-ends es c =
      let run = start_consuming W S abi cache es c in
      elim (start_consuming-Ending es c) [
        | inl (all, e) ↦ inl (all, ap exit_code_of e)
        | inr (x, broken, e) ↦
            let (zero_iff, small) = code_of_raised x in inr (x, broken, rw e zero_iff, rw e small)
      ]
