-- ===== src/Pipeline/Logs.antt =====
-- The table of logs after a run of a consumer in the mode full.
use mathlib.Core.List.{Perm, foldr}
use mathlib.Core.List.Perm
use uzh_blockchain_data_coll.Base.{
  ℕ, some, Bool, true, false, List, [], ◌∷◌, ◌++◌, ◌||◌, ◌==◌, map, contains, All, list_eq, nat_eq,
  pair_eq, ◌≡◌, refl, sym, ap, ◌∙◌, arith, eq_self,
}
use uzh_blockchain_data_coll.Base.Text.{Str}
use uzh_blockchain_data_coll.World.{World}
use uzh_blockchain_data_coll.Db.Tables.{Db, LogRow, log_key}
use uzh_blockchain_data_coll.Db.Table.{has_key, insert_row}
use uzh_blockchain_data_coll.Db.Unique.{has_key-insert_row_eq}
use uzh_blockchain_data_coll.Model.Rows.{TransactionLogsData}
use uzh_blockchain_data_coll.Parser.{ConfigCache, ContractAbi}
use uzh_blockchain_data_coll.Redis.{SortedSet}
use uzh_blockchain_data_coll.Processor.Handlers.{log_row}
use uzh_blockchain_data_coll.Processor.Full.{HasKey, put_logs}
use uzh_blockchain_data_coll.Pipeline.Consumed.{Answer, IsReadable, stored, stored_all}

abbrev has_log : Str × ℕ → List LogRow → Bool
has_log = has_key log_key

has_key-append :
    (q : Str × ℕ) (xs ys : List LogRow) → has_log q (xs ++ ys) ≡ (has_log q xs || has_log q ys)
unfolding has_key
has_key-append q [] ys = refl
has_key-append q (x ∷ xs) ys = ground (arith, has_key-append q xs ys)

has_key-cons :
    (q k : Str × ℕ) (r : LogRow) (rows : List LogRow)
    → log_key r ≡ some k
    → has_log q (r ∷ rows) ≡ (q == k || has_log q rows)
unfolding has_key
has_key-cons q k r rows h = ground arith

-- Under the conflict clause the keys in the table are those that were there and those of the logs.
has_key-put_logs_eq :
    (ls : List TransactionLogsData) (rows : List LogRow) (q : Str × ℕ)
    → All HasKey ls
    → has_log q (put_logs ls rows) ≡ (has_log q rows || has_log q (map log_row ls))
unfolding has_key
has_key-put_logs_eq [] rows q h = ground arith
has_key-put_logs_eq (l ∷ ls) rows q ((k, e), h) = ground (
  arith,
  has_key-put_logs_eq ls (insert_row log_key (log_row l) rows).1 q h,
  has_key-insert_row_eq log_key (log_row l) q k rows e,
  has_key-cons q k (log_row l) (map log_row ls) e,
)

module _ (W : World) (S : SortedSet) (abi : ContractAbi W.Abi) (cache : ConfigCache)
    (node : Str → Answer W.Float W.Receipt) where
  -- The rows of the logs of the transactions with these hashes.
  abbrev pub log_rows : List Str → List LogRow
  log_rows [] = []
  log_rows (h ∷ hs) = map log_row (node h).logs ++ log_rows hs

  has_log_of : Str × ℕ → Str → Bool → Bool
  has_log_of q h b = has_log q (map log_row (node h).logs) || b

  has_key-log_rows :
      (q : Str × ℕ) (hs : List Str) → has_log q (log_rows hs) ≡ foldr (has_log_of q) false hs
  unfolding has_log_of has_key
  has_key-log_rows q [] = refl
  has_key-log_rows q (h ∷ hs) =
      has_key-append q (map log_row (node h).logs) (log_rows hs)
      ∙ ap (has_log_of q h) (has_key-log_rows q hs)

  has_log_of_comm :
      (q : Str × ℕ) (h k : Str) (b : Bool)
      → has_log_of q h (has_log_of q k b) ≡ has_log_of q k (has_log_of q h b)
  unfolding has_log_of
  has_log_of_comm q h k b = ground arith

  pub has_key-log_rows_perm :
      (q : Str × ℕ) (hs ks : List Str)
      → Perm hs ks
      → has_log q (log_rows hs) ≡ has_log q (log_rows ks)
  has_key-log_rows_perm q hs ks p =
      has_key-log_rows q hs
      ∙ Perm.foldr-eq (hlevel) (has_log_of q) (has_log_of_comm q) p false
      ∙ sym (has_key-log_rows q ks)

  pub has_key-stored_all :
      (hs : List Str) (q : Str × ℕ) (d : Db W.Float)
      → ((h : Str) → contains hs h ≡ true → IsReadable W (node h) h)
      → has_log q (stored_all W S abi cache node hs d).transaction_logs
        ≡ (has_log q d.transaction_logs || has_log q (log_rows hs))
  unfolding stored_all
  has_key-stored_all [] q d readable = unfold has_key in ground arith
  has_key-stored_all (h ∷ hs) q d readable =
      let first : contains (h ∷ hs) h ≡ true = ground (arith, eq_self h) in
      ground (
        arith,
        has_key-stored_all hs q (stored W S abi cache node h d)
            (λ j there. readable j (ground arith)),
        has_key-put_logs_eq (node h).logs d.transaction_logs q ((readable h first).1.keys),
        has_key-append q (map log_row (node h).logs) (log_rows hs),
      )
