-- ===== src/Wal/Table.antt =====
-- std_wal_serializer.cpp: the records about tables. A reader of the log puts them together in `Serializer`.
pub mod RoundTrip
use deltabase_c.Prelude.{ℕ, List}
use deltabase_c.Stream.{
  MemoryStream, empty, write, ◌▹◌, Reader, ◌>>=◌, pure, read_some, read_word_some,
}
use deltabase_c.Types.Value.{null_uuid}
use deltabase_c.Types.WalLog.{WalRecordType}
use deltabase_c.Types.WalLog.Codes.{code}
use deltabase_c.Types.WalLog.Table.{
  CreateTableRecord, UpdateTableRecord, DeleteTableRecord, ClrCreateTableRecord,
  ClrUpdateTableRecord, ClrDeleteTableRecord,
}
use deltabase_c.Storage.Encode.{write_u64, append_all, serialize_mt}
use deltabase_c.Storage.Decode.{deserialize_mt}
use deltabase_c.Wal.Locals.{Locals, read_header}

pub serialize_create_table : CreateTableRecord → MemoryStream
serialize_create_table r =
    empty
    ▹ write_u64 (code WalRecordType.create_table)
    ▹ write_u64 r.lsn
    ▹ write_u64 r.prev_lsn
    ▹ write r.txn_id
    ▹ append_all (serialize_mt r.after)

pub deserialize_create_table : Locals → Reader CreateTableRecord
deserialize_create_table locals = do
  header ← read_header locals
  after ← deserialize_mt
  pure (record { header = header; after = after })

pub serialize_update_table : UpdateTableRecord → MemoryStream
serialize_update_table r =
    empty
    ▹ write_u64 (code WalRecordType.update_table)
    ▹ write_u64 r.lsn
    ▹ write_u64 r.prev_lsn
    ▹ write r.txn_id
    ▹ append_all (serialize_mt r.before)
    ▹ append_all (serialize_mt r.after)

pub deserialize_update_table : Locals → Reader UpdateTableRecord
deserialize_update_table locals = do
  header ← read_header locals
  before ← deserialize_mt
  after ← deserialize_mt
  pure (record { header = header; before = before; after = after })

pub serialize_delete_table : DeleteTableRecord → MemoryStream
serialize_delete_table r =
    empty
    ▹ write_u64 (code WalRecordType.delete_table)
    ▹ write_u64 r.lsn
    ▹ write_u64 r.prev_lsn
    ▹ write r.txn_id
    ▹ append_all (serialize_mt r.before)

pub deserialize_delete_table : Locals → Reader DeleteTableRecord
deserialize_delete_table locals = do
  header ← read_header locals
  before ← deserialize_mt
  pure (record { header = header; before = before })

pub serialize_clr_create_table : ClrCreateTableRecord → MemoryStream
serialize_clr_create_table r =
    empty
    ▹ write_u64 (code WalRecordType.clr_create_table)
    ▹ write_u64 r.lsn
    ▹ write_u64 r.prev_lsn
    ▹ write r.txn_id
    ▹ write_u64 r.undo_next_lsn
    ▹ append_all (serialize_mt r.after)

pub deserialize_clr_create_table : Locals → Reader ClrCreateTableRecord
deserialize_clr_create_table locals = do
  header ← read_header locals
  undo_next_lsn ← read_word_some 8 locals.undo_next_lsn
  after ← deserialize_mt
  pure (record { header = header; undo_next_lsn = undo_next_lsn; after = after })

pub serialize_clr_update_table : ClrUpdateTableRecord → MemoryStream
serialize_clr_update_table r =
    empty
    ▹ write_u64 (code WalRecordType.clr_update_table)
    ▹ write_u64 r.lsn
    ▹ write_u64 r.prev_lsn
    ▹ write r.txn_id
    ▹ write_u64 r.undo_next_lsn
    ▹ append_all (serialize_mt r.before)
    ▹ append_all (serialize_mt r.after)

pub deserialize_clr_update_table : Locals → Reader ClrUpdateTableRecord
deserialize_clr_update_table locals = do
  header ← read_header locals
  undo_next_lsn ← read_word_some 8 locals.undo_next_lsn
  before ← deserialize_mt
  after ← deserialize_mt
  pure (record { header = header; undo_next_lsn = undo_next_lsn; before = before; after = after })

pub serialize_clr_delete_table : ClrDeleteTableRecord → MemoryStream
serialize_clr_delete_table r =
    empty
    ▹ write_u64 (code WalRecordType.clr_delete_table)
    ▹ write_u64 r.lsn
    ▹ write_u64 r.prev_lsn
    ▹ write r.txn_id
    ▹ write_u64 r.undo_next_lsn
    ▹ append_all (serialize_mt r.before)

pub deserialize_clr_delete_table : Locals → Reader ClrDeleteTableRecord
deserialize_clr_delete_table locals = do
  header ← read_header locals
  undo_next_lsn ← read_word_some 8 locals.undo_next_lsn
  before ← deserialize_mt
  pure (record { header = header; undo_next_lsn = undo_next_lsn; before = before })
