-- ===== src/Pipeline/Retries.antt =====
-- Whole runs over a node that times out and loses connections now and then.
use uzh_blockchain_data_coll.Base.{ℕ, Option, List, ◌≡◌, refl, Bool, fun_ext, arith, ◌∙◌, ap}
use uzh_blockchain_data_coll.Base.Text.{Str}
use uzh_blockchain_data_coll.Errors.{Result, ok, err}
use uzh_blockchain_data_coll.World.{World}
use uzh_blockchain_data_coll.Node.Requests.{Settles, make_request-Settles}
use uzh_blockchain_data_coll.Node.Connector.{
  Rpc, read_with, get_block_data, get_transaction_data, get_transaction_receipt_data, without_dict,
  node_connector,
}
use uzh_blockchain_data_coll.Parser.{ConfigCache, ContractAbi}
use uzh_blockchain_data_coll.Redis.{SortedSet}
use uzh_blockchain_data_coll.Consumer.{Event, DataConsumer, start_consuming_data}
use uzh_blockchain_data_coll.Producer.{Topic, State, ProducerConfig, start_producer}

-- The requests settle within the limit, on answers that read as those of the world.
pub record IsTransient (W : World) (retries : ℕ) (p : Rpc W.Float W.Receipt) : Type 0 where
  pub blocks :
      (i : ℕ)
      → (r : Result p.BlockDict) × Settles retries (p.eth_get_block i) r
        × (read_with p.read_block (λ data' d. data') r ≡ W.get_block i)
  pub transactions :
      (h : Str)
      → (r : Result p.TxDict) × Settles retries (p.eth_get_transaction h) r
        × (read_with p.read_transaction (λ tx d. tx) r ≡ W.get_transaction h)
  pub receipts :
      (h : Str)
      → (r : Result W.Receipt) × Settles retries (p.eth_get_transaction_receipt h) r
        × (read_with p.read_receipt (λ receipt d. (receipt, d)) r ≡ W.get_transaction_receipt h)
  pub block_traces : (i : ℕ) → Settles retries (p.trace_block i) (W.trace_block i)
  pub replays : (h : Option Str) → Settles retries (p.trace_replay h) (W.trace_replay h)

module _ (W : World) (retries : ℕ) (p : Rpc W.Float W.Receipt) (t : IsTransient W retries p) where
  same_block : (i : ℕ) → get_block_data W retries p i ≡ W.get_block i
  unfolding get_block_data
  same_block i =
      let (r, s, e) = t.blocks i in
      ap (read_with p.read_block (λ data' d. data')) (make_request-Settles retries _ r s) ∙ e

  drop_dict :
      {D A : Type 0} (read : D → Result A) (r : Result D)
      → without_dict W retries p (read_with read (λ a d. (a, d)) r) ≡ read_with read (λ a d. a) r
  drop_dict read (err e) = refl
  drop_dict read (ok d) = ground arith

  same_receipt :
      (h : Str) → get_transaction_receipt_data W retries p h ≡ W.get_transaction_receipt h
  unfolding get_transaction_receipt_data
  same_receipt h =
      let (r, s, e) = t.receipts h in
      ap (read_with p.read_receipt (λ receipt d. (receipt, d))) (make_request-Settles retries _ r s)
      ∙ e

  same_transaction :
      (h : Str)
      → without_dict W retries p (get_transaction_data W retries p h) ≡ W.get_transaction h
  unfolding get_transaction_data
  same_transaction h =
      let (r, s, e) = t.transactions h in
      ap (λ q. without_dict W retries p (read_with p.read_transaction (λ tx d. (tx, d)) q))
        (make_request-Settles retries _ r s)
      ∙ drop_dict p.read_transaction r
      ∙ e

  -- If every request settles within the limit of retries, behind rounds that are all retried, on
  -- an answer that reads as that of a given world, then every run of a producer and every run of
  -- a consumer through the connector is the run in this world.
  pub node_connector-runs :
      (T : Topic) (S : SortedSet) (abi : ContractAbi W.Abi) (cache : ConfigCache) (fuel : ℕ)
      (reward : Bool) (cfg : ProducerConfig) (s : State W.Float T.State) (es : List Event)
      (c : DataConsumer W S abi cache)
      → (start_producer (node_connector W retries p) T fuel reward cfg s
          ≡ start_producer W T fuel reward cfg s)
        × (start_consuming_data (node_connector W retries p) S abi cache es c
            ≡ start_consuming_data W S abi cache es c)
  node_connector-runs T S abi cache fuel reward cfg s es c =
      let blocks = fun_ext same_block in
      let txs = fun_ext same_transaction in
      let receipts = fun_ext same_receipt in
      let traces = fun_ext (λ i. make_request-Settles retries _ _ (t.block_traces i)) in
      let replays = fun_ext (λ h. make_request-Settles retries _ _ (t.replays h)) in
      (
        λ j.
            start_producer
              (record W {
                get_block = blocks j;
                get_transaction = txs j;
                get_transaction_receipt = receipts j;
                trace_block = traces j;
                trace_replay = replays j;
              })
              T fuel reward cfg s,
        λ j.
            start_consuming_data
              (record W {
                get_block = blocks j;
                get_transaction = txs j;
                get_transaction_receipt = receipts j;
                trace_block = traces j;
                trace_replay = replays j;
              })
              S abi cache es c,
      )
