-- ===== src/Pipeline/Internal.antt =====
-- The table of internal transactions after a run of a consumer in the mode full.
use mathlib.Core.List.{flat_map}
use uzh_blockchain_data_coll.Base.{
  List, [], ◌∷◌, ◌++◌, map, append-nil, append_assoc, ◌≡◌, sym, ◌∙◌,
}
use uzh_blockchain_data_coll.Base.Text.{Str}
use uzh_blockchain_data_coll.World.{World}
use uzh_blockchain_data_coll.Db.Tables.{Db, InternalRow}
use uzh_blockchain_data_coll.Parser.{ConfigCache, ContractAbi}
use uzh_blockchain_data_coll.Redis.{SortedSet}
use uzh_blockchain_data_coll.Processor.Handlers.{internal_row}
use uzh_blockchain_data_coll.Pipeline.Consumed.{Answer, stored, stored_all}

module _ (W : World) (S : SortedSet) (abi : ContractAbi W.Abi) (cache : ConfigCache)
    (node : Str → Answer W.Float W.Receipt) where
  abbrev pub traced_rows : Str → List (InternalRow W.Float)
  traced_rows h = map (internal_row (node h).tx.transaction_hash) (node h).internal

  -- The rows of the internal transactions of the transactions with these hashes.
  abbrev pub internal_rows : List Str → List (InternalRow W.Float)
  internal_rows hs = flat_map traced_rows hs

  pub stored_all-internal :
      (hs : List Str) (d : Db W.Float)
      → (stored_all W S abi cache node hs d).internal_transaction
        ≡ d.internal_transaction ++ internal_rows hs
  unfolding stored_all flat_map
  stored_all-internal [] d = sym (append-nil d.internal_transaction)
  stored_all-internal (h ∷ hs) d =
      stored_all-internal hs (stored W S abi cache node h d)
      ∙ append_assoc d.internal_transaction (traced_rows h) (internal_rows hs)
