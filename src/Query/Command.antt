-- ===== src/Query/Command.antt =====
-- etc/query_tool.py, `main`: the commands, and the connection that they run on. (Its help texts are
-- left out, and the drawing of the two plots.)
use uzh_blockchain_data_coll.Base.{
  ℕ, Option, none, some, Bool, true, false, List, ◌≡◌, arith, inl, inr,
}
use uzh_blockchain_data_coll.Errors.{
  M, Result, ok, err, ◌>>◌, pure, lift, modify, not_implemented, Result-cases,
}
use uzh_blockchain_data_coll.Base.Text.{Str}
use uzh_blockchain_data_coll.Db.Tables.{Db}
use uzh_blockchain_data_coll.Pairs.{Entry}
use uzh_blockchain_data_coll.Query.{Args, Line, cmd_supply}
use uzh_blockchain_data_coll.Query.Plot.{Bar, plot_others}
use uzh_blockchain_data_coll.Query.Overview.{Sizes, OverviewBar, plot_overview}

-- `args.func` with its arguments; the configuration of `plot_others` as its contracts.
pub data Command : Type 0 where
  event : Str → Option Str → Command
  supply : Args → Command
  overview : Command
  others : List Entry → Command

-- What a run prints or draws.
pub data Output : Type 0 where
  help : Output
  lines : List Line → Output
  overview_bars : List OverviewBar → Output
  log_bars : List Bar → Output

-- Whether the connection to PostgreSQL is open.
pub record Connection : Type 0 where
  pub is_open : Bool

module _ {F : Type 0} (pg_size_pretty : ℕ → Str) (db : Db F) (sizes : Sizes) where
  -- `args.func(conn, args)`
  unfoldable pub execute : Command → Result Output
  execute (event type' address) = err not_implemented
  execute (supply args) = ok (lines (cmd_supply args db))
  execute overview = ok (overview_bars (plot_overview pg_size_pretty db sizes))
  execute (others contracts) = elim (plot_others contracts db.transaction_logs) [
    | err e ↦ err e
    | ok bs ↦ ok (log_bars bs)
  ]

  -- `try: … finally: await conn.close()`
  unfoldable pub with_close : {A : Type 0} → M Connection A → M Connection A
  with_close m c = let (r, c') = m c in (r, record c' { is_open = false })

  -- `main`, with what connecting gives. Without a command the help is printed.
  unfoldable pub query_tool : Result (Unit {0}) → Option Command → M Connection Output
  unfolding execute with_close
  query_tool connected none = pure help
  query_tool connected (some command) =
      lift connected
      >> (modify (λ c. record c { is_open = true }) >> with_close (lift (execute command)))

  -- However a command ends, no connection is left open, and its result is the command's.
  pub query_tool_closes :
      (command : Command) (c : Connection)
      → query_tool (ok tt) (some command) c ≡ (execute command, record c { is_open = false })
  unfolding query_tool with_close
  query_tool_closes command c = elim (Result-cases (execute command)) [
    | inl (a, e) ↦ ground (arith, e)
    | inr (x, e) ↦ ground (arith, e)
  ]
