-- ===== src/Wal/Data.antt =====
-- std_wal_serializer.cpp: the records about rows. A reader of the log puts them together in `Serializer`.
pub mod RoundTrip
use deltabase_c.Prelude.{ℕ, List}
use deltabase_c.Stream.{
  MemoryStream, empty, write, ◌▹◌, Reader, ◌>>=◌, pure, read_some, read_word_some,
}
use deltabase_c.Types.Value.{null_uuid}
use deltabase_c.Types.WalLog.{WalRecordType}
use deltabase_c.Types.WalLog.Codes.{code}
use deltabase_c.Types.WalLog.Data.{
  InsertRecord, UpdateRecord, DeleteRecord, ClrInsertRecord, ClrUpdateRecord, ClrDeleteRecord,
}
use deltabase_c.Storage.Encode.{write_u64, append_all, serialize_dr}
use deltabase_c.Storage.Decode.{deserialize_dr}
use deltabase_c.Wal.Locals.{Locals, read_header}

pub serialize_insert : InsertRecord → MemoryStream
serialize_insert r =
    empty
    ▹ write_u64 (code WalRecordType.insert)
    ▹ write_u64 r.lsn
    ▹ write_u64 r.prev_lsn
    ▹ write r.txn_id
    ▹ write r.table_id
    ▹ write r.page_id
    ▹ append_all (serialize_dr r.after)

pub deserialize_insert : Locals → Reader InsertRecord
deserialize_insert locals = do
  header ← read_header locals
  table_id ← read_some 16 null_uuid
  page_id ← read_some 16 null_uuid
  after ← deserialize_dr
  pure (record { header = header; table_id = table_id; page_id = page_id; after = after })

pub serialize_update : UpdateRecord → MemoryStream
serialize_update r =
    empty
    ▹ write_u64 (code WalRecordType.update)
    ▹ write_u64 r.lsn
    ▹ write_u64 r.prev_lsn
    ▹ write r.txn_id
    ▹ write r.table_id
    ▹ write r.page_id
    ▹ append_all (serialize_dr r.before)
    ▹ append_all (serialize_dr r.after)

pub deserialize_update : Locals → Reader UpdateRecord
deserialize_update locals = do
  header ← read_header locals
  table_id ← read_some 16 null_uuid
  page_id ← read_some 16 null_uuid
  before ← deserialize_dr
  after ← deserialize_dr
  pure (record {
    header = header;
    table_id = table_id;
    page_id = page_id;
    before = before;
    after = after;
  })

pub serialize_delete : DeleteRecord → MemoryStream
serialize_delete r =
    empty
    ▹ write_u64 (code WalRecordType.delete)
    ▹ write_u64 r.lsn
    ▹ write_u64 r.prev_lsn
    ▹ write r.txn_id
    ▹ write r.table_id
    ▹ write r.page_id
    ▹ append_all (serialize_dr r.before)

pub deserialize_delete : Locals → Reader DeleteRecord
deserialize_delete locals = do
  header ← read_header locals
  table_id ← read_some 16 null_uuid
  page_id ← read_some 16 null_uuid
  before ← deserialize_dr
  pure (record { header = header; table_id = table_id; page_id = page_id; before = before })

pub serialize_clr_insert : ClrInsertRecord → MemoryStream
serialize_clr_insert r =
    empty
    ▹ write_u64 (code WalRecordType.clr_insert)
    ▹ write_u64 r.lsn
    ▹ write_u64 r.prev_lsn
    ▹ write r.txn_id
    ▹ write r.table_id
    ▹ write r.page_id
    ▹ write_u64 r.undo_next_lsn
    ▹ append_all (serialize_dr r.after)

pub deserialize_clr_insert : Locals → Reader ClrInsertRecord
deserialize_clr_insert locals = do
  header ← read_header locals
  table_id ← read_some 16 null_uuid
  page_id ← read_some 16 null_uuid
  undo_next_lsn ← read_word_some 8 locals.undo_next_lsn
  after ← deserialize_dr
  pure (record {
    header = header;
    table_id = table_id;
    page_id = page_id;
    undo_next_lsn = undo_next_lsn;
    after = after;
  })

pub serialize_clr_update : ClrUpdateRecord → MemoryStream
serialize_clr_update r =
    empty
    ▹ write_u64 (code WalRecordType.clr_update)
    ▹ write_u64 r.lsn
    ▹ write_u64 r.prev_lsn
    ▹ write r.txn_id
    ▹ write r.table_id
    ▹ write r.page_id
    ▹ write_u64 r.undo_next_lsn
    ▹ append_all (serialize_dr r.before)
    ▹ append_all (serialize_dr r.after)

pub deserialize_clr_update : Locals → Reader ClrUpdateRecord
deserialize_clr_update locals = do
  header ← read_header locals
  table_id ← read_some 16 null_uuid
  page_id ← read_some 16 null_uuid
  undo_next_lsn ← read_word_some 8 locals.undo_next_lsn
  before ← deserialize_dr
  after ← deserialize_dr
  pure (record {
    header = header;
    table_id = table_id;
    page_id = page_id;
    undo_next_lsn = undo_next_lsn;
    before = before;
    after = after;
  })

pub serialize_clr_delete : ClrDeleteRecord → MemoryStream
serialize_clr_delete r =
    empty
    ▹ write_u64 (code WalRecordType.clr_delete)
    ▹ write_u64 r.lsn
    ▹ write_u64 r.prev_lsn
    ▹ write r.txn_id
    ▹ write r.table_id
    ▹ write r.page_id
    ▹ write_u64 r.undo_next_lsn
    ▹ append_all (serialize_dr r.before)

pub deserialize_clr_delete : Locals → Reader ClrDeleteRecord
deserialize_clr_delete locals = do
  header ← read_header locals
  table_id ← read_some 16 null_uuid
  page_id ← read_some 16 null_uuid
  undo_next_lsn ← read_word_some 8 locals.undo_next_lsn
  before ← deserialize_dr
  pure (record {
    header = header;
    table_id = table_id;
    page_id = page_id;
    undo_next_lsn = undo_next_lsn;
    before = before;
  })
