-- ===== src/Explorer.antt =====
-- app/web3/block_explorer.py: the first and the last block of a data collection.
use uzh_blockchain_data_coll.Base.{Option-cases, inl, inr, ℕ, Option, none, some, ◌≡◌, refl, arith}
use uzh_blockchain_data_coll.Errors.{
  Result-cases, M, ok, err, ◌>>=◌, pure, raise, lift, attribute_error, Exc,
}
use uzh_blockchain_data_coll.World.{World}
use uzh_blockchain_data_coll.Db.{get_block, latest, latest_row}
use uzh_blockchain_data_coll.Db.Tables.{Db, BlockRow}

-- `ExplorationBounds`; block numbers of a configuration are not negative.
pub record ExplorationBounds : Type 0 where
  pub start_block : ℕ
  pub end_block : Option ℕ

abbrev pub default_start_block : ℕ
default_start_block = 0

module _ (W : World) where
  -- Without a configured start and with a block in the database the block is fetched once more,
  -- and then `self.db.get_block_transactions`, which `DatabaseManager` does not have, is an
  -- `AttributeError`. So nothing behind that line runs.
  unfoldable pub resume_block : Option BlockRow → M (Db W.Float) ℕ
  resume_block none = pure default_start_block
  resume_block (some b) =
      lift (W.get_block b.block_number) >>= λ start_block_data. raise attribute_error

  unfoldable pub start_from : Option ℕ → Option BlockRow → M (Db W.Float) ℕ
  unfolding resume_block
  start_from (some s) res = pure s
  start_from none res = resume_block res

  unfoldable pub get_exploration_bounds : Option ℕ → Option ℕ → M (Db W.Float) ExplorationBounds
  unfolding start_from get_block
  get_exploration_bounds cfg_start_block cfg_end_block = do
    res ← get_block latest
    start_block ← start_from cfg_start_block res
    pure (record { start_block = start_block; end_block = cfg_end_block })

  -- A configured start takes precedence over the database; the database is not changed.
  pub get_exploration_bounds_config :
      (s : ℕ) (end_block : Option ℕ) (db : Db W.Float)
      → get_exploration_bounds (some s) end_block db
        ≡ (ok (record { start_block = s; end_block = end_block }), db)
  unfolding get_exploration_bounds
  get_exploration_bounds_config s end_block db = refl

  -- Without a configured start a block table with any block makes the explorer raise, whatever
  -- the node answers.
  pub get_exploration_bounds_database :
      (end_block : Option ℕ) (db : Db W.Float) (b : BlockRow)
      → latest_row db.block ≡ some b
      → (e : Exc) × (get_exploration_bounds none end_block db ≡ (err e, db))
  unfolding get_exploration_bounds
  get_exploration_bounds_database end_block db b h =
      elim (Result-cases (W.get_block b.block_number)) [
        | inl (d, found) ↦ (attribute_error, ground arith)
        | inr (e, raised) ↦ (e, ground arith)
      ]

  -- The end block is the configured one.
  pub get_exploration_bounds_end :
      (start_block end_block : Option ℕ) (db : Db W.Float) {b : ExplorationBounds}
      → (get_exploration_bounds start_block end_block db).0 ≡ ok b
      → b.end_block ≡ end_block
  unfolding get_exploration_bounds
  get_exploration_bounds_end (some s) end_block db h = ground arith
  get_exploration_bounds_end none end_block db h = elim (Option-cases (latest_row db.block)) [
    | inl empty ↦ ground arith
    | inr (b, last) ↦ ground arith
  ]
