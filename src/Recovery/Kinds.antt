-- ===== src/Recovery/Kinds.antt =====
-- wal_log.hpp and recovery_manager.cpp: the variants of records that `if constexpr` tells apart, and the
-- compensation record (CLR) of each record that can be undone.
pub mod Compensates
pub mod Headers
use deltabase_c.Prelude.{ap, ◌∙◌, false, true, Bool, ℕ, Option, none, some, ◌≡◌, refl}
use deltabase_c.Types.Value.{Uuid}
use deltabase_c.Types.WalLog.{header_of-with_header, WalRecord, header_of, with_header}
use deltabase_c.Types.WalLog.Txn.{Header}

-- `WALDataRecord` without its CLRs, `WALMetaRecord`, the two halves of `WALCLRRecord`, and the records
-- of `WALTxnRecord`.
pub data Kind : Type 0 where
  data_record : (page_id table_id : Uuid) → Kind
  meta_record : Kind
  data_clr : (page_id table_id : Uuid) (undo_next_lsn : ℕ) → Kind
  meta_clr : (undo_next_lsn : ℕ) → Kind
  begins : Kind
  commits : Kind
  rolls_back : Kind

unfoldable pub kind_of : WalRecord → Kind
kind_of (WalRecord.insert r) = data_record r.page_id r.table_id
kind_of (WalRecord.update r) = data_record r.page_id r.table_id
kind_of (WalRecord.delete r) = data_record r.page_id r.table_id
kind_of (WalRecord.create_table r) = meta_record
kind_of (WalRecord.update_table r) = meta_record
kind_of (WalRecord.delete_table r) = meta_record
kind_of (WalRecord.create_schema r) = meta_record
kind_of (WalRecord.update_schema r) = meta_record
kind_of (WalRecord.delete_schema r) = meta_record
kind_of (WalRecord.begin_txn r) = begins
kind_of (WalRecord.commit_txn r) = commits
kind_of (WalRecord.rollback_txn r) = rolls_back
kind_of (WalRecord.clr_insert r) = data_clr r.page_id r.table_id r.undo_next_lsn
kind_of (WalRecord.clr_update r) = data_clr r.page_id r.table_id r.undo_next_lsn
kind_of (WalRecord.clr_delete r) = data_clr r.page_id r.table_id r.undo_next_lsn
kind_of (WalRecord.clr_create_schema r) = meta_clr r.undo_next_lsn
kind_of (WalRecord.clr_update_schema r) = meta_clr r.undo_next_lsn
kind_of (WalRecord.clr_delete_schema r) = meta_clr r.undo_next_lsn
kind_of (WalRecord.clr_create_table r) = meta_clr r.undo_next_lsn
kind_of (WalRecord.clr_update_table r) = meta_clr r.undo_next_lsn
kind_of (WalRecord.clr_delete_table r) = meta_clr r.undo_next_lsn
kind_of (WalRecord.create_index r) = meta_record
kind_of (WalRecord.clr_create_index r) = meta_clr r.undo_next_lsn
kind_of (WalRecord.drop_index r) = meta_record
kind_of (WalRecord.clr_drop_index r) = meta_clr r.undo_next_lsn

-- Whether a record is about schemas, tables or indexes.
abbrev pub changes_meta : Kind → Bool
changes_meta meta_record = true
changes_meta (meta_clr next) = true
changes_meta _ = false

abbrev pub is_clr : Kind → Bool
is_clr (data_clr page_id table_id next) = true
is_clr (meta_clr next) = true
is_clr _ = false

-- A record that has an effect to undo.
abbrev pub is_undoable : Kind → Bool
is_undoable (data_record page_id table_id) = true
is_undoable meta_record = true
is_undoable _ = false

abbrev pub is_commit : Kind → Bool
is_commit commits = true
is_commit _ = false

abbrev pub is_rollback : Kind → Bool
is_rollback rolls_back = true
is_rollback _ = false

-- A record about rows or transactions.
abbrev pub IsPaged : WalRecord → Type 0
IsPaged r = changes_meta (kind_of r) ≡ false

-- A record that leads back by `prev_lsn`.
abbrev pub is_plain : Kind → Bool
is_plain (data_clr page_id table_id next) = false
is_plain (meta_clr next) = false
is_plain rolls_back = false
is_plain _ = true

-- A CLR has the record's LSN and 0 for its own links, until it is appended.
clr_header : Header → Header
clr_header h = record h { prev_lsn = 0 }

-- The overloads of `make_clr`; the other records are not undone.
pub make_clr : WalRecord → Option WalRecord
unfolding clr_header
make_clr (WalRecord.insert r) = some (
    WalRecord.clr_insert (record {
      header = clr_header r.header;
      table_id = r.table_id;
      page_id = r.page_id;
      undo_next_lsn = r.prev_lsn;
      after = r.after;
    }))
make_clr (WalRecord.update r) = some (
    WalRecord.clr_update (record {
      header = clr_header r.header;
      table_id = r.table_id;
      page_id = r.page_id;
      undo_next_lsn = r.prev_lsn;
      before = r.before;
      after = r.after;
    }))
make_clr (WalRecord.delete r) = some (
    WalRecord.clr_delete (record {
      header = clr_header r.header;
      table_id = r.table_id;
      page_id = r.page_id;
      undo_next_lsn = r.prev_lsn;
      before = r.before;
    }))
make_clr (WalRecord.create_schema r) = some (
    WalRecord.clr_create_schema
      (record { header = clr_header r.header; undo_next_lsn = r.prev_lsn; schema = r.schema }))
make_clr (WalRecord.update_schema r) = some (
    WalRecord.clr_update_schema (record {
      header = clr_header r.header;
      undo_next_lsn = r.prev_lsn;
      before = r.before;
      after = r.after;
    }))
make_clr (WalRecord.delete_schema r) = some (
    WalRecord.clr_delete_schema
      (record { header = clr_header r.header; undo_next_lsn = r.prev_lsn; before = r.before }))
make_clr (WalRecord.create_table r) = some (
    WalRecord.clr_create_table
      (record { header = clr_header r.header; undo_next_lsn = r.prev_lsn; after = r.after }))
make_clr (WalRecord.update_table r) = some (
    WalRecord.clr_update_table (record {
      header = clr_header r.header;
      undo_next_lsn = r.prev_lsn;
      before = r.before;
      after = r.after;
    }))
make_clr (WalRecord.delete_table r) = some (
    WalRecord.clr_delete_table
      (record { header = clr_header r.header; undo_next_lsn = r.prev_lsn; before = r.before }))
make_clr (WalRecord.create_index r) = some (
    WalRecord.clr_create_index
      (record { header = clr_header r.header; undo_next_lsn = r.prev_lsn; after = r.after }))
make_clr (WalRecord.drop_index r) = some (
    WalRecord.clr_drop_index
      (record { header = clr_header r.header; undo_next_lsn = r.prev_lsn; before = r.before }))
make_clr r = none

-- What the loop of `undo` goes to after a record: the record to undo next for a CLR, and otherwise the
-- record that the transaction wrote before; a rollback marker ends the loop.
unfoldable pub back : WalRecord → ℕ
back r = elim (kind_of r) [
  | data_clr page_id table_id next ↦ next
  | meta_clr next ↦ next
  | rolls_back ↦ 0
  | _ ↦ (header_of r).prev_lsn
]
