-- ===== src/Recovery/Redo.antt =====
-- recovery_manager.cpp: `redo`, `redo_data` and `redo_meta`.
pub mod Applied
pub mod Idempotent
use deltabase_c.Prelude.{
  ℕ, List, [], ◌∷◌, ◌++◌, Option, none, some, Bool, true, false, not, leb, ltb, if◌then◌else◌, Eq,
}
use deltabase_c.Types.Value.{Uuid}
use deltabase_c.Types.Meta.{MetaTable, MetaIndex}
use deltabase_c.Types.Page.{DataPage}
use deltabase_c.Types.WalLog.{WalRecord, lsn_of, txn_of}
use deltabase_c.Recovery.Io.{IoManager, ◌>>=◌, page_for}
use deltabase_c.Recovery.Kinds.{Kind, kind_of, data_record, meta_record, data_clr, meta_clr}
use deltabase_c.Recovery.Pages.{redo_rows}
use deltabase_c.Recovery.Lsns.{LsnMap, lookup}

module _ ⦃uuid_eq : Eq Uuid⦄ {S : Type 0} (io : IoManager S) where
  -- `std::erase_if` of the indexes with an id.
  pub erase_index : Uuid → List MetaIndex → List MetaIndex
  erase_index id [] = []
  erase_index id (i ∷ indexes) =
      if uuid_eq.beq i.id id then erase_index id indexes else i ∷ erase_index id indexes

  pub add_index : MetaIndex → S → Option S
  add_index index s = do
    table ← io.read_table_meta index.table_id s
    io.write_mt (record table { indexes = table.indexes ++ index ∷ [] }) s

  pub remove_index : MetaIndex → S → Option S
  unfolding erase_index
  remove_index index s = do
    table ← io.read_table_meta index.table_id s
    io.write_mt (record table { indexes = erase_index index.id table.indexes }) s

  pub redo_meta : WalRecord → S → Option S
  unfolding add_index remove_index
  redo_meta (WalRecord.create_schema r) s = io.write_ms r.schema s
  redo_meta (WalRecord.update_schema r) s = io.write_ms r.after s
  redo_meta (WalRecord.delete_schema r) s = io.delete_ms r.before s
  redo_meta (WalRecord.clr_create_schema r) s = io.delete_ms r.schema s
  redo_meta (WalRecord.clr_update_schema r) s = io.write_ms r.before s
  redo_meta (WalRecord.clr_delete_schema r) s = io.write_ms r.before s
  redo_meta (WalRecord.create_table r) s = io.write_mt r.after s
  redo_meta (WalRecord.update_table r) s = io.write_mt r.after s
  redo_meta (WalRecord.delete_table r) s = io.delete_mt r.before s
  redo_meta (WalRecord.clr_create_table r) s = io.delete_mt r.after s
  redo_meta (WalRecord.clr_update_table r) s = io.write_mt r.before s
  redo_meta (WalRecord.clr_delete_table r) s = io.write_mt r.before s
  redo_meta (WalRecord.create_index r) s = add_index r.after s
  redo_meta (WalRecord.clr_create_index r) s = remove_index r.after s
  redo_meta (WalRecord.drop_index r) s = remove_index r.before s
  redo_meta (WalRecord.clr_drop_index r) s = add_index r.before s
  redo_meta r s = some s

  -- The page is changed and written only if it does not have the record yet.
  unfoldable pub write_newer : WalRecord → DataPage → S → Option S
  write_newer r page s =
      if ltb page.last_lsn (lsn_of r)
      then io.write_page (record page { rows = redo_rows r page.rows; last_lsn = lsn_of r }) s
      else some s

  unfoldable pub redo_data : WalRecord → (page_id table_id : Uuid) → S → Option S
  unfolding write_newer
  redo_data r page_id table_id s = do
    found ← io.read_data_page page_id s
    table ← io.read_table_meta table_id s
    page ← page_for io found table page_id s
    write_newer r page s

  -- A record of a transaction that committed, not behind its commit marker.
  unfoldable pub is_committed : LsnMap → WalRecord → Bool
  is_committed commit_lsns r = elim (lookup (txn_of r) commit_lsns) [
    | none ↦ false
    | some lsn ↦ leb (lsn_of r) lsn
  ]

  -- A record after the last checkpoint that is redone: a CLR, or one that is committed.
  unfoldable pub is_redone : ℕ → LsnMap → WalRecord → Bool
  unfolding is_committed
  is_redone checkpoint commit_lsns r =
      if leb (lsn_of r) checkpoint then false else elim (kind_of r) [
        | data_clr page_id table_id next ↦ true
        | meta_clr next ↦ true
        | _ ↦ is_committed commit_lsns r
      ]

  unfoldable pub redo_kind : Kind → WalRecord → S → Option S
  unfolding redo_meta redo_data
  redo_kind (data_record page_id table_id) r s = redo_data r page_id table_id s
  redo_kind (data_clr page_id table_id next) r s = redo_data r page_id table_id s
  redo_kind meta_record r s = redo_meta r s
  redo_kind (meta_clr next) r s = redo_meta r s
  redo_kind k r s = some s

  unfoldable pub redo : ℕ → LsnMap → WalRecord → S → Option S
  unfolding is_redone redo_kind
  redo checkpoint commit_lsns r s =
      if is_redone checkpoint commit_lsns r then redo_kind (kind_of r) r s else some s

  -- The first loop of `recover`.
  unfoldable pub redo_all : ℕ → LsnMap → List WalRecord → S → Option S
  redo_all checkpoint commit_lsns [] s = some s
  redo_all checkpoint commit_lsns (r ∷ rs) s = do
    s' ← redo checkpoint commit_lsns r s
    redo_all checkpoint commit_lsns rs s'
