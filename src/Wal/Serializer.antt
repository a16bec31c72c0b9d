-- ===== src/Wal/Serializer.antt =====
-- std_wal_serializer.cpp: `serialize` and `deserialize` of any record.
pub mod RoundTrip
use deltabase_c.Prelude.{ℕ, Option, none, some}
use deltabase_c.Stream.{MemoryStream, Reader, ◌>>=◌, pure, fail, read_word_some}
use deltabase_c.Types.WalLog.{WalRecordType, WalRecord}
use deltabase_c.Types.WalLog.Codes.{of_code}
use deltabase_c.Wal.Locals.{Locals}
use deltabase_c.Wal.Txn.{
  serialize_begin_txn, deserialize_begin_txn, serialize_commit_txn, deserialize_commit_txn,
  serialize_rollback_txn, deserialize_rollback_txn,
}
use deltabase_c.Wal.Data.{
  serialize_insert, deserialize_insert, serialize_update, deserialize_update, serialize_delete,
  deserialize_delete, serialize_clr_insert, deserialize_clr_insert, serialize_clr_update,
  deserialize_clr_update, serialize_clr_delete, deserialize_clr_delete,
}
use deltabase_c.Wal.Schema.{
  serialize_create_schema, deserialize_create_schema, serialize_update_schema,
  deserialize_update_schema, serialize_delete_schema, deserialize_delete_schema,
  serialize_clr_create_schema, deserialize_clr_create_schema, serialize_clr_update_schema,
  deserialize_clr_update_schema, serialize_clr_delete_schema, deserialize_clr_delete_schema,
}
use deltabase_c.Wal.Table.{
  serialize_create_table, deserialize_create_table, serialize_update_table,
  deserialize_update_table, serialize_delete_table, deserialize_delete_table,
  serialize_clr_create_table, deserialize_clr_create_table, serialize_clr_update_table,
  deserialize_clr_update_table, serialize_clr_delete_table, deserialize_clr_delete_table,
}
use deltabase_c.Wal.Index.{
  serialize_create_index, deserialize_create_index, serialize_clr_create_index,
  deserialize_clr_create_index, serialize_drop_index, deserialize_drop_index,
  serialize_clr_drop_index, deserialize_clr_drop_index,
}

pub serialize : WalRecord → MemoryStream
serialize (WalRecord.insert r) = serialize_insert r
serialize (WalRecord.update r) = serialize_update r
serialize (WalRecord.delete r) = serialize_delete r
serialize (WalRecord.create_table r) = serialize_create_table r
serialize (WalRecord.update_table r) = serialize_update_table r
serialize (WalRecord.delete_table r) = serialize_delete_table r
serialize (WalRecord.create_schema r) = serialize_create_schema r
serialize (WalRecord.update_schema r) = serialize_update_schema r
serialize (WalRecord.delete_schema r) = serialize_delete_schema r
serialize (WalRecord.begin_txn r) = serialize_begin_txn r
serialize (WalRecord.commit_txn r) = serialize_commit_txn r
serialize (WalRecord.rollback_txn r) = serialize_rollback_txn r
serialize (WalRecord.clr_insert r) = serialize_clr_insert r
serialize (WalRecord.clr_update r) = serialize_clr_update r
serialize (WalRecord.clr_delete r) = serialize_clr_delete r
serialize (WalRecord.clr_create_schema r) = serialize_clr_create_schema r
serialize (WalRecord.clr_update_schema r) = serialize_clr_update_schema r
serialize (WalRecord.clr_delete_schema r) = serialize_clr_delete_schema r
serialize (WalRecord.clr_create_table r) = serialize_clr_create_table r
serialize (WalRecord.clr_update_table r) = serialize_clr_update_table r
serialize (WalRecord.clr_delete_table r) = serialize_clr_delete_table r
serialize (WalRecord.create_index r) = serialize_create_index r
serialize (WalRecord.clr_create_index r) = serialize_clr_create_index r
serialize (WalRecord.drop_index r) = serialize_drop_index r
serialize (WalRecord.clr_drop_index r) = serialize_clr_drop_index r

-- The cases of the `switch`.
deserialize_as : Locals → WalRecordType → Reader WalRecord
deserialize_as ls WalRecordType.insert = do r ← deserialize_insert ls; pure (WalRecord.insert r)
deserialize_as ls WalRecordType.update = do r ← deserialize_update ls; pure (WalRecord.update r)
deserialize_as ls WalRecordType.delete = do r ← deserialize_delete ls; pure (WalRecord.delete r)
deserialize_as ls WalRecordType.create_table = do
  r ← deserialize_create_table ls
  pure (WalRecord.create_table r)
deserialize_as ls WalRecordType.update_table = do
  r ← deserialize_update_table ls
  pure (WalRecord.update_table r)
deserialize_as ls WalRecordType.delete_table = do
  r ← deserialize_delete_table ls
  pure (WalRecord.delete_table r)
deserialize_as ls WalRecordType.create_schema = do
  r ← deserialize_create_schema ls
  pure (WalRecord.create_schema r)
deserialize_as ls WalRecordType.update_schema = do
  r ← deserialize_update_schema ls
  pure (WalRecord.update_schema r)
deserialize_as ls WalRecordType.delete_schema = do
  r ← deserialize_delete_schema ls
  pure (WalRecord.delete_schema r)
deserialize_as ls WalRecordType.begin_txn = do
  r ← deserialize_begin_txn ls
  pure (WalRecord.begin_txn r)
deserialize_as ls WalRecordType.commit_txn = do
  r ← deserialize_commit_txn ls
  pure (WalRecord.commit_txn r)
deserialize_as ls WalRecordType.rollback_txn = do
  r ← deserialize_rollback_txn ls
  pure (WalRecord.rollback_txn r)
deserialize_as ls WalRecordType.clr_insert = do
  r ← deserialize_clr_insert ls
  pure (WalRecord.clr_insert r)
deserialize_as ls WalRecordType.clr_update = do
  r ← deserialize_clr_update ls
  pure (WalRecord.clr_update r)
deserialize_as ls WalRecordType.clr_delete = do
  r ← deserialize_clr_delete ls
  pure (WalRecord.clr_delete r)
deserialize_as ls WalRecordType.clr_create_schema = do
  r ← deserialize_clr_create_schema ls
  pure (WalRecord.clr_create_schema r)
deserialize_as ls WalRecordType.clr_update_schema = do
  r ← deserialize_clr_update_schema ls
  pure (WalRecord.clr_update_schema r)
deserialize_as ls WalRecordType.clr_delete_schema = do
  r ← deserialize_clr_delete_schema ls
  pure (WalRecord.clr_delete_schema r)
deserialize_as ls WalRecordType.clr_create_table = do
  r ← deserialize_clr_create_table ls
  pure (WalRecord.clr_create_table r)
deserialize_as ls WalRecordType.clr_update_table = do
  r ← deserialize_clr_update_table ls
  pure (WalRecord.clr_update_table r)
deserialize_as ls WalRecordType.clr_delete_table = do
  r ← deserialize_clr_delete_table ls
  pure (WalRecord.clr_delete_table r)
deserialize_as ls WalRecordType.create_index = do
  r ← deserialize_create_index ls
  pure (WalRecord.create_index r)
deserialize_as ls WalRecordType.clr_create_index = do
  r ← deserialize_clr_create_index ls
  pure (WalRecord.clr_create_index r)
deserialize_as ls WalRecordType.drop_index = do
  r ← deserialize_drop_index ls
  pure (WalRecord.drop_index r)
deserialize_as ls WalRecordType.clr_drop_index = do
  r ← deserialize_clr_drop_index ls
  pure (WalRecord.clr_drop_index r)

deserialize_case : Locals → Option WalRecordType → Reader WalRecord
deserialize_case ls none = fail
deserialize_case ls (some type) = deserialize_as ls type

pub deserialize : Locals → Reader WalRecord
unfolding deserialize_case
deserialize ls = do type ← read_word_some 8 ls.type; deserialize_case ls (of_code type)
