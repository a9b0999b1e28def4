-- ===== src/Tests/Rounds.antt =====
-- A node that times out once at every request.
use uzh_blockchain_data_coll.Base.{
  ℕ, zero, suc, ◌<◌, ◌≡◌, refl, arith, none, some, true, inl, inr, [], ◌∷◌, nat_eq, list_eq,
}
use uzh_blockchain_data_coll.Base.Int.{pos}
use uzh_blockchain_data_coll.Errors.{Exc, Result, ok, err, request_timeout, block_not_found}
use uzh_blockchain_data_coll.Model.{full}
use uzh_blockchain_data_coll.Model.Rows.{BlockData, TransactionData}
use uzh_blockchain_data_coll.Node.Retry.{is_retried}
use uzh_blockchain_data_coll.Node.Requests.{Settles}
use uzh_blockchain_data_coll.Node.Connector.{Rpc, node_connector, read_with}
use uzh_blockchain_data_coll.Pipeline.Retries.{IsTransient, node_connector-runs}
use uzh_blockchain_data_coll.Redis.Memory.{memory_set}
use uzh_blockchain_data_coll.Consumer.{DataConsumer, start_consuming_data}
use uzh_blockchain_data_coll.Producer.{start_producer}
use uzh_blockchain_data_coll.Tests.EndToEnd.{begin, arrived}
use uzh_blockchain_data_coll.Tests.Setting.{
  small_world, small_topic, small_abi, small_cache, block_1, block_2, block_at, no_state,
  a_transaction, a_receipt,
}

-- The first round of every request times out.
abbrev late_once : {A : Type 0} → Result A → ℕ → Result A
late_once r zero = err request_timeout
late_once r (suc k) = r

abbrev late_rpc : Rpc ℕ (Unit {0})
late_rpc = record {
  BlockDict = BlockData;
  TxDict = TransactionData ℕ;
  read_block = ok;
  read_transaction = ok;
  read_receipt = λ r. ok a_receipt;
  eth_get_block = λ i. late_once (block_at i);
  eth_get_transaction = λ h. late_once (ok (a_transaction h));
  eth_get_transaction_receipt = λ h. late_once (ok tt);
  trace_block = λ i. late_once (small_world.trace_block i);
  trace_replay = λ h. late_once (small_world.trace_replay h);
}

first_late :
    {A : Type 0} (r : Result A) (k : ℕ)
    → k < 1
    → (e : Exc) × (late_once r k ≡ err e) × (is_retried e ≡ true)
first_late r zero lt = (request_timeout, refl, refl)
first_late r (suc k) lt = absurd (omega arith)

late_once-Settles : {A : Type 0} (a : A) → Settles 3 (late_once (ok a)) (ok a)
late_once-Settles a = record {
  round = 1;
  in_time = omega arith;
  before = first_late (ok a);
  answer = refl;
  final = inl (a, refl);
}

abbrev missing : Result BlockData
missing = err block_not_found

late_once-missing : Settles 3 (late_once missing) missing
late_once-missing = record {
  round = 1;
  in_time = omega arith;
  before = first_late missing;
  answer = refl;
  final = inr (block_not_found, refl, refl);
}

block_at-Settles :
    (i : ℕ)
    → (r : Result BlockData) × Settles 3 (late_once (block_at i)) r
      × (read_with ok (λ data' d. data') r ≡ small_world.get_block i)
block_at-Settles zero = (err block_not_found, late_once-missing, refl)
block_at-Settles (suc zero) = (ok block_1, late_once-Settles block_1, refl)
block_at-Settles (suc (suc zero)) = (ok block_2, late_once-Settles block_2, refl)
block_at-Settles (suc (suc (suc i))) = (err block_not_found, late_once-missing, refl)

late_rpc-IsTransient : IsTransient small_world 3 late_rpc
late_rpc-IsTransient = record {
  blocks = block_at-Settles;
  transactions = λ h. (ok (a_transaction h), late_once-Settles (a_transaction h), refl);
  receipts = λ h. (ok tt, late_once-Settles tt, refl);
  block_traces = λ i. late_once-Settles _;
  replays = λ h. late_once-Settles _;
}

abbrev idle : DataConsumer small_world memory_set small_abi small_cache
idle = record {
  processor = no_state;
  redis = (0, pos 2) ∷ (1, pos 1) ∷ [];
  tx_hash = none;
  n_consumed_txs = 0;
  n_processed_txs = 0;
}

node_connector-runs_example :
    (start_producer
        (node_connector small_world 3 late_rpc)
        small_topic
        9
        true
        (record { mode = full; start_block = some 1; end_block = some 5 })
        begin
      ≡ start_producer small_world small_topic 9 true
          (record { mode = full; start_block = some 1; end_block = some 5 })
          begin)
    × (start_consuming_data
          (node_connector small_world 3 late_rpc)
          memory_set
          small_abi
          small_cache
          arrived
          idle
        ≡ start_consuming_data small_world memory_set small_abi small_cache arrived idle)
node_connector-runs_example =
    node_connector-runs small_world 3 late_rpc late_rpc-IsTransient small_topic memory_set small_abi
      small_cache 9 true (record { mode = full; start_block = some 1; end_block = some 5 }) begin
      arrived idle
