-- ===== src/Types/WalLog.antt =====
-- wal_log.hpp: a structure for each kind of record of the write-ahead log, and their variant.
pub mod Txn
pub mod Data
pub mod Schema
pub mod Table
pub mod Index
pub mod Codes
use deltabase_c.Prelude.{ℕ, arith, ◌≡◌, refl, Option, none, some, ◌==◌, if◌then◌else◌}
use deltabase_c.Stream.Word.{IsU64}
use deltabase_c.Types.Value.{Uuid, IsUuid, IsRow}
use deltabase_c.Types.Meta.{IsSchema, IsTable, IsIndex}
use Txn.{Header, IsHeader}
use Txn.{BeginTxnRecord, CommitTxnRecord, RollbackTxnRecord}
use Data.{
  InsertRecord, UpdateRecord, DeleteRecord, ClrInsertRecord, ClrUpdateRecord, ClrDeleteRecord,
}
use Schema.{
  CreateSchemaRecord, UpdateSchemaRecord, DeleteSchemaRecord, ClrCreateSchemaRecord,
  ClrUpdateSchemaRecord, ClrDeleteSchemaRecord,
}
use Table.{
  CreateTableRecord, UpdateTableRecord, DeleteTableRecord, ClrCreateTableRecord,
  ClrUpdateTableRecord, ClrDeleteTableRecord,
}
use Index.{CreateIndexRecord, ClrCreateIndexRecord, DropIndexRecord, ClrDropIndexRecord}

pub data WalRecordType : Type 0 where
  insert update delete create_table update_table delete_table create_schema update_schema
        delete_schema begin_txn commit_txn rollback_txn clr_insert clr_update clr_delete
        clr_create_schema clr_update_schema clr_delete_schema clr_create_table clr_update_table
        clr_delete_table create_index clr_create_index drop_index clr_drop_index :
      WalRecordType

pub data WalRecord : Type 0 where
  insert : InsertRecord → WalRecord
  update : UpdateRecord → WalRecord
  delete : DeleteRecord → WalRecord
  create_table : CreateTableRecord → WalRecord
  update_table : UpdateTableRecord → WalRecord
  delete_table : DeleteTableRecord → WalRecord
  create_schema : CreateSchemaRecord → WalRecord
  update_schema : UpdateSchemaRecord → WalRecord
  delete_schema : DeleteSchemaRecord → WalRecord
  begin_txn : BeginTxnRecord → WalRecord
  commit_txn : CommitTxnRecord → WalRecord
  rollback_txn : RollbackTxnRecord → WalRecord
  clr_insert : ClrInsertRecord → WalRecord
  clr_update : ClrUpdateRecord → WalRecord
  clr_delete : ClrDeleteRecord → WalRecord
  clr_create_schema : ClrCreateSchemaRecord → WalRecord
  clr_update_schema : ClrUpdateSchemaRecord → WalRecord
  clr_delete_schema : ClrDeleteSchemaRecord → WalRecord
  clr_create_table : ClrCreateTableRecord → WalRecord
  clr_update_table : ClrUpdateTableRecord → WalRecord
  clr_delete_table : ClrDeleteTableRecord → WalRecord
  create_index : CreateIndexRecord → WalRecord
  clr_create_index : ClrCreateIndexRecord → WalRecord
  drop_index : DropIndexRecord → WalRecord
  clr_drop_index : ClrDropIndexRecord → WalRecord

-- `std::visit` of the fields that every record has.
unfoldable pub header_of : WalRecord → Header
header_of (insert r) = r.header
header_of (update r) = r.header
header_of (delete r) = r.header
header_of (create_table r) = r.header
header_of (update_table r) = r.header
header_of (delete_table r) = r.header
header_of (create_schema r) = r.header
header_of (update_schema r) = r.header
header_of (delete_schema r) = r.header
header_of (begin_txn r) = r.header
header_of (commit_txn r) = r.header
header_of (rollback_txn r) = r.header
header_of (clr_insert r) = r.header
header_of (clr_update r) = r.header
header_of (clr_delete r) = r.header
header_of (clr_create_schema r) = r.header
header_of (clr_update_schema r) = r.header
header_of (clr_delete_schema r) = r.header
header_of (clr_create_table r) = r.header
header_of (clr_update_table r) = r.header
header_of (clr_delete_table r) = r.header
header_of (create_index r) = r.header
header_of (clr_create_index r) = r.header
header_of (drop_index r) = r.header
header_of (clr_drop_index r) = r.header

unfoldable pub with_header : Header → WalRecord → WalRecord
with_header h (insert r) = insert (record r { header = h })
with_header h (update r) = update (record r { header = h })
with_header h (delete r) = delete (record r { header = h })
with_header h (create_table r) = create_table (record r { header = h })
with_header h (update_table r) = update_table (record r { header = h })
with_header h (delete_table r) = delete_table (record r { header = h })
with_header h (create_schema r) = create_schema (record r { header = h })
with_header h (update_schema r) = update_schema (record r { header = h })
with_header h (delete_schema r) = delete_schema (record r { header = h })
with_header h (begin_txn r) = begin_txn (record r { header = h })
with_header h (commit_txn r) = commit_txn (record r { header = h })
with_header h (rollback_txn r) = rollback_txn (record r { header = h })
with_header h (clr_insert r) = clr_insert (record r { header = h })
with_header h (clr_update r) = clr_update (record r { header = h })
with_header h (clr_delete r) = clr_delete (record r { header = h })
with_header h (clr_create_schema r) = clr_create_schema (record r { header = h })
with_header h (clr_update_schema r) = clr_update_schema (record r { header = h })
with_header h (clr_delete_schema r) = clr_delete_schema (record r { header = h })
with_header h (clr_create_table r) = clr_create_table (record r { header = h })
with_header h (clr_update_table r) = clr_update_table (record r { header = h })
with_header h (clr_delete_table r) = clr_delete_table (record r { header = h })
with_header h (create_index r) = create_index (record r { header = h })
with_header h (clr_create_index r) = clr_create_index (record r { header = h })
with_header h (drop_index r) = drop_index (record r { header = h })
with_header h (clr_drop_index r) = clr_drop_index (record r { header = h })

abbrev pub lsn_of : WalRecord → ℕ
lsn_of r = (header_of r).lsn

abbrev pub txn_of : WalRecord → Uuid
txn_of r = (header_of r).txn_id

-- `rec.lsn = lsn`.
abbrev pub set_lsn : ℕ → WalRecord → WalRecord
set_lsn lsn r = with_header (record (header_of r) { lsn = lsn }) r

pub header_of-with_header : (h : Header) (r : WalRecord) → header_of (with_header h r) ≡ h
unfolding header_of with_header
header_of-with_header h (insert r) = refl
header_of-with_header h (update r) = refl
header_of-with_header h (delete r) = refl
header_of-with_header h (create_table r) = refl
header_of-with_header h (update_table r) = refl
header_of-with_header h (delete_table r) = refl
header_of-with_header h (create_schema r) = refl
header_of-with_header h (update_schema r) = refl
header_of-with_header h (delete_schema r) = refl
header_of-with_header h (begin_txn r) = refl
header_of-with_header h (commit_txn r) = refl
header_of-with_header h (rollback_txn r) = refl
header_of-with_header h (clr_insert r) = refl
header_of-with_header h (clr_update r) = refl
header_of-with_header h (clr_delete r) = refl
header_of-with_header h (clr_create_schema r) = refl
header_of-with_header h (clr_update_schema r) = refl
header_of-with_header h (clr_delete_schema r) = refl
header_of-with_header h (clr_create_table r) = refl
header_of-with_header h (clr_update_table r) = refl
header_of-with_header h (clr_delete_table r) = refl
header_of-with_header h (create_index r) = refl
header_of-with_header h (clr_create_index r) = refl
header_of-with_header h (drop_index r) = refl
header_of-with_header h (clr_drop_index r) = refl

-- What the C++ types give: identifiers of 16 bytes, numbers and lengths in range.
abbrev pub IsWalRecord : WalRecord → Type 0
IsWalRecord (insert r) = IsHeader r.header × IsUuid r.table_id × IsUuid r.page_id × IsRow r.after
IsWalRecord (update r) =
    IsHeader r.header × IsUuid r.table_id × IsUuid r.page_id × IsRow r.before × IsRow r.after
IsWalRecord (delete r) = IsHeader r.header × IsUuid r.table_id × IsUuid r.page_id × IsRow r.before
IsWalRecord (create_table r) = IsHeader r.header × IsTable r.after
IsWalRecord (update_table r) = IsHeader r.header × IsTable r.before × IsTable r.after
IsWalRecord (delete_table r) = IsHeader r.header × IsTable r.before
IsWalRecord (create_schema r) = IsHeader r.header × IsSchema r.schema
IsWalRecord (update_schema r) = IsHeader r.header × IsSchema r.before × IsSchema r.after
IsWalRecord (delete_schema r) = IsHeader r.header × IsSchema r.before
IsWalRecord (begin_txn r) = IsHeader r.header
IsWalRecord (commit_txn r) = IsHeader r.header
IsWalRecord (rollback_txn r) = IsHeader r.header
IsWalRecord (clr_insert r) =
    IsHeader r.header × IsUuid r.table_id × IsUuid r.page_id × IsU64 r.undo_next_lsn × IsRow r.after
IsWalRecord (clr_update r) =
    IsHeader r.header
    × IsUuid r.table_id
    × IsUuid r.page_id
    × IsU64 r.undo_next_lsn
    × IsRow r.before
    × IsRow r.after
IsWalRecord (clr_delete r) =
    IsHeader r.header
    × IsUuid r.table_id
    × IsUuid r.page_id
    × IsU64 r.undo_next_lsn
    × IsRow r.before
IsWalRecord (clr_create_schema r) = IsHeader r.header × IsU64 r.undo_next_lsn × IsSchema r.schema
IsWalRecord (clr_update_schema r) =
    IsHeader r.header × IsU64 r.undo_next_lsn × IsSchema r.before × IsSchema r.after
IsWalRecord (clr_delete_schema r) = IsHeader r.header × IsU64 r.undo_next_lsn × IsSchema r.before
IsWalRecord (clr_create_table r) = IsHeader r.header × IsU64 r.undo_next_lsn × IsTable r.after
IsWalRecord (clr_update_table r) =
    IsHeader r.header × IsU64 r.undo_next_lsn × IsTable r.before × IsTable r.after
IsWalRecord (clr_delete_table r) = IsHeader r.header × IsU64 r.undo_next_lsn × IsTable r.before
IsWalRecord (create_index r) = IsHeader r.header × IsIndex r.after
IsWalRecord (clr_create_index r) = IsHeader r.header × IsU64 r.undo_next_lsn × IsIndex r.after
IsWalRecord (drop_index r) = IsHeader r.header × IsIndex r.before
IsWalRecord (clr_drop_index r) = IsHeader r.header × IsU64 r.undo_next_lsn × IsIndex r.before
