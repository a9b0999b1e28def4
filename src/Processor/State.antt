-- ===== src/Processor/State.antt =====
-- The state that a transaction processor works on: the database, and the contract instances that
-- its parser has created.
use uzh_blockchain_data_coll.Base.Dict.{Dict}
use uzh_blockchain_data_coll.Base.Text.{Str}
use uzh_blockchain_data_coll.Errors.{M}
use uzh_blockchain_data_coll.Db.Tables.{Db}

pub record State (F C : Type 0) : Type 0 where
  pub db : Db F
  pub contracts : Dict Str C

module _ {F C A : Type 0} where
  abbrev pub on_db : M (Db F) A → M (State F C) A
  on_db m s = let (r, d) = m s.db in (r, record s { db = d })

  abbrev pub on_contracts : M (Dict Str C) A → M (State F C) A
  on_contracts m s = let (r, c) = m s.contracts in (r, record s { contracts = c })
