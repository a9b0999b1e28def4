-- ===== src/Query/Supply.antt =====
-- The supply changes that the command prints.
use uzh_blockchain_data_coll.Base.{◌↔◌, In}
use uzh_blockchain_data_coll.Db.Tables.{Db, SupplyChangeRow, TransactionRow, BlockRow}
use uzh_blockchain_data_coll.Query.{Args, Change, join, supply_changes}
use uzh_blockchain_data_coll.Query.Join.{join-FromRows, FromRows-join}
use uzh_blockchain_data_coll.Query.Conditions.{IsChange, ComesFrom-IsChange, IsChange-ComesFrom}
use uzh_blockchain_data_coll.Query.Order.{
  IsSorted, In-order_by_timestamp, order_by_timestamp-IsSorted,
}

-- The tables have a change, its transaction and the block that this record tells of.
abbrev pub HasChange : {F : Type 0} → Args → Db F → Change → Type 0
HasChange {F} args db r =
    (s : SupplyChangeRow) × (t : TransactionRow F) × (b : BlockRow) × In s db.contract_supply_change
    × In t db.transaction
    × In b db.block
    × IsChange args r s t b

-- The query for supply changes gives a record exactly if it comes from a supply change of the
-- address, its transaction and the transaction's block, with the block number at least the start
-- block and below the end block, if an end block other than 0 is given (with none, or with 0,
-- there is no bound above); and the records stand in the order of their timestamps.
pub supply_changes-HasChange :
    {F : Type 0} (args : Args) (db : Db F) (r : Change)
    → (In r (supply_changes args db) ↔ HasChange args db r) × IsSorted (supply_changes args db)
unfolding supply_changes
supply_changes-HasChange args db r =
    let rows = join args db.contract_supply_change db.transaction db.block in
    let (kept, all) = In-order_by_timestamp r rows in
    (
      (
        λ h.
            let (s, t, b, ms, mt, mb, from) =
              join-FromRows args r db.contract_supply_change db.transaction db.block (kept h) in
            (s, t, b, ms, mt, mb, ComesFrom-IsChange args r s t b from),
        λ h.
            let (s, t, b, ms, mt, mb, change) = h in
            all (
              FromRows-join args r db.contract_supply_change db.transaction db.block
                (s, t, b, ms, mt, mb, IsChange-ComesFrom args r s t b change)),
      ),
      order_by_timestamp-IsSorted rows,
    )
