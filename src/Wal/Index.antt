-- ===== src/Wal/Index.antt =====
-- std_wal_serializer.cpp: the records about indexes. A reader of the log puts them together in `Serializer`.
pub mod RoundTrip
use deltabase_c.Prelude.{ℕ, List}
use deltabase_c.Stream.{
  MemoryStream, empty, write, ◌▹◌, Reader, ◌>>=◌, pure, read_some, read_word_some,
}
use deltabase_c.Types.Value.{null_uuid}
use deltabase_c.Types.WalLog.{WalRecordType}
use deltabase_c.Types.WalLog.Codes.{code}
use deltabase_c.Types.WalLog.Index.{
  CreateIndexRecord, ClrCreateIndexRecord, DropIndexRecord, ClrDropIndexRecord,
}
use deltabase_c.Storage.Encode.{write_u64, append_all, serialize_mi}
use deltabase_c.Storage.Decode.{deserialize_mi}
use deltabase_c.Wal.Locals.{Locals, read_header}

pub serialize_create_index : CreateIndexRecord → MemoryStream
serialize_create_index r =
    empty
    ▹ write_u64 (code WalRecordType.create_index)
    ▹ write_u64 r.lsn
    ▹ write_u64 r.prev_lsn
    ▹ write r.txn_id
    ▹ append_all (serialize_mi r.after)

pub deserialize_create_index : Locals → Reader CreateIndexRecord
deserialize_create_index locals = do
  header ← read_header locals
  after ← deserialize_mi
  pure (record { header = header; after = after })

pub serialize_clr_create_index : ClrCreateIndexRecord → MemoryStream
serialize_clr_create_index r =
    empty
    ▹ write_u64 (code WalRecordType.clr_create_index)
    ▹ write_u64 r.lsn
    ▹ write_u64 r.prev_lsn
    ▹ write r.txn_id
    ▹ write_u64 r.undo_next_lsn
    ▹ append_all (serialize_mi r.after)

pub deserialize_clr_create_index : Locals → Reader ClrCreateIndexRecord
deserialize_clr_create_index locals = do
  header ← read_header locals
  undo_next_lsn ← read_word_some 8 locals.undo_next_lsn
  after ← deserialize_mi
  pure (record { header = header; undo_next_lsn = undo_next_lsn; after = after })

pub serialize_drop_index : DropIndexRecord → MemoryStream
serialize_drop_index r =
    empty
    ▹ write_u64 (code WalRecordType.drop_index)
    ▹ write_u64 r.lsn
    ▹ write_u64 r.prev_lsn
    ▹ write r.txn_id
    ▹ append_all (serialize_mi r.before)

pub deserialize_drop_index : Locals → Reader DropIndexRecord
deserialize_drop_index locals = do
  header ← read_header locals
  before ← deserialize_mi
  pure (record { header = header; before = before })

pub serialize_clr_drop_index : ClrDropIndexRecord → MemoryStream
serialize_clr_drop_index r =
    empty
    ▹ write_u64 (code WalRecordType.clr_drop_index)
    ▹ write_u64 r.lsn
    ▹ write_u64 r.prev_lsn
    ▹ write r.txn_id
    ▹ write_u64 r.undo_next_lsn
    ▹ append_all (serialize_mi r.before)

pub deserialize_clr_drop_index : Locals → Reader ClrDropIndexRecord
deserialize_clr_drop_index locals = do
  header ← read_header locals
  undo_next_lsn ← read_word_some 8 locals.undo_next_lsn
  before ← deserialize_mi
  pure (record { header = header; undo_next_lsn = undo_next_lsn; before = before })
