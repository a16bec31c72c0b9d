-- ===== src/Wal/Schema.antt =====
-- std_wal_serializer.cpp: the records about schemas. A reader of the log puts them together in `Serializer`.
pub mod RoundTrip
use deltabase_c.Prelude.{ℕ, List}
use deltabase_c.Stream.{
  MemoryStream, empty, write, ◌▹◌, Reader, ◌>>=◌, pure, read_some, read_word_some,
}
use deltabase_c.Types.Value.{null_uuid}
use deltabase_c.Types.WalLog.{WalRecordType}
use deltabase_c.Types.WalLog.Codes.{code}
use deltabase_c.Types.WalLog.Schema.{
  CreateSchemaRecord, UpdateSchemaRecord, DeleteSchemaRecord, ClrCreateSchemaRecord,
  ClrUpdateSchemaRecord, ClrDeleteSchemaRecord,
}
use deltabase_c.Storage.Encode.{write_u64, append_all, serialize_ms}
use deltabase_c.Storage.Decode.{deserialize_ms}
use deltabase_c.Wal.Locals.{Locals, read_header}

pub serialize_create_schema : CreateSchemaRecord → MemoryStream
serialize_create_schema r =
    empty
    ▹ write_u64 (code WalRecordType.create_schema)
    ▹ write_u64 r.lsn
    ▹ write_u64 r.prev_lsn
    ▹ write r.txn_id
    ▹ append_all (serialize_ms r.schema)

pub deserialize_create_schema : Locals → Reader CreateSchemaRecord
deserialize_create_schema locals = do
  header ← read_header locals
  schema ← deserialize_ms
  pure (record { header = header; schema = schema })

pub serialize_update_schema : UpdateSchemaRecord → MemoryStream
serialize_update_schema r =
    empty
    ▹ write_u64 (code WalRecordType.update_schema)
    ▹ write_u64 r.lsn
    ▹ write_u64 r.prev_lsn
    ▹ write r.txn_id
    ▹ append_all (serialize_ms r.before)
    ▹ append_all (serialize_ms r.after)

pub deserialize_update_schema : Locals → Reader UpdateSchemaRecord
deserialize_update_schema locals = do
  header ← read_header locals
  before ← deserialize_ms
  after ← deserialize_ms
  pure (record { header = header; before = before; after = after })

pub serialize_delete_schema : DeleteSchemaRecord → MemoryStream
serialize_delete_schema r =
    empty
    ▹ write_u64 (code WalRecordType.delete_schema)
    ▹ write_u64 r.lsn
    ▹ write_u64 r.prev_lsn
    ▹ write r.txn_id
    ▹ append_all (serialize_ms r.before)

pub deserialize_delete_schema : Locals → Reader DeleteSchemaRecord
deserialize_delete_schema locals = do
  header ← read_header locals
  before ← deserialize_ms
  pure (record { header = header; before = before })

pub serialize_clr_create_schema : ClrCreateSchemaRecord → MemoryStream
serialize_clr_create_schema r =
    empty
    ▹ write_u64 (code WalRecordType.clr_create_schema)
    ▹ write_u64 r.lsn
    ▹ write_u64 r.prev_lsn
    ▹ write r.txn_id
    ▹ write_u64 r.undo_next_lsn
    ▹ append_all (serialize_ms r.schema)

pub deserialize_clr_create_schema : Locals → Reader ClrCreateSchemaRecord
deserialize_clr_create_schema locals = do
  header ← read_header locals
  undo_next_lsn ← read_word_some 8 locals.undo_next_lsn
  schema ← deserialize_ms
  pure (record { header = header; undo_next_lsn = undo_next_lsn; schema = schema })

pub serialize_clr_update_schema : ClrUpdateSchemaRecord → MemoryStream
serialize_clr_update_schema r =
    empty
    ▹ write_u64 (code WalRecordType.clr_update_schema)
    ▹ write_u64 r.lsn
    ▹ write_u64 r.prev_lsn
    ▹ write r.txn_id
    ▹ write_u64 r.undo_next_lsn
    ▹ append_all (serialize_ms r.before)
    ▹ append_all (serialize_ms r.after)

pub deserialize_clr_update_schema : Locals → Reader ClrUpdateSchemaRecord
deserialize_clr_update_schema locals = do
  header ← read_header locals
  undo_next_lsn ← read_word_some 8 locals.undo_next_lsn
  before ← deserialize_ms
  after ← deserialize_ms
  pure (record { header = header; undo_next_lsn = undo_next_lsn; before = before; after = after })

pub serialize_clr_delete_schema : ClrDeleteSchemaRecord → MemoryStream
serialize_clr_delete_schema r =
    empty
    ▹ write_u64 (code WalRecordType.clr_delete_schema)
    ▹ write_u64 r.lsn
    ▹ write_u64 r.prev_lsn
    ▹ write r.txn_id
    ▹ write_u64 r.undo_next_lsn
    ▹ append_all (serialize_ms r.before)

pub deserialize_clr_delete_schema : Locals → Reader ClrDeleteSchemaRecord
deserialize_clr_delete_schema locals = do
  header ← read_header locals
  undo_next_lsn ← read_word_some 8 locals.undo_next_lsn
  before ← deserialize_ms
  pure (record { header = header; undo_next_lsn = undo_next_lsn; before = before })
