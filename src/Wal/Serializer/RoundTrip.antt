-- ===== src/Wal/Serializer/RoundTrip.antt =====
-- A record of the log is read back as it was written, whichever of the 25 kinds it is.
use deltabase_c.Prelude.{length-append, length, ℕ, ◌≡◌, List, ◌++◌}
use deltabase_c.Stream.Word.{length-le_bytes, le_bytes}
use deltabase_c.Stream.{Parses, Parses-bind, Parses-map}
use deltabase_c.Types.WalLog.Txn.{IsHeader, BeginTxnRecord}
use deltabase_c.Types.WalLog.{WalRecordType, WalRecord, IsWalRecord}
use deltabase_c.Types.WalLog.Codes.{code, of_code-code, code-IsU64}
use deltabase_c.Wal.Locals.{header_bytes, Locals, IsLocals, word_part}
use deltabase_c.Wal.Serializer.{serialize, deserialize_as, deserialize}
use deltabase_c.Wal.Txn.RoundTrip.{
  begin_txn_bytes, serialize_begin_txn_lem, Parses-deserialize_begin_txn, commit_txn_bytes,
  serialize_commit_txn_lem, Parses-deserialize_commit_txn, rollback_txn_bytes,
  serialize_rollback_txn_lem, Parses-deserialize_rollback_txn,
}
use deltabase_c.Wal.Data.RoundTrip.{
  insert_bytes, serialize_insert_lem, Parses-deserialize_insert, update_bytes, serialize_update_lem,
  Parses-deserialize_update, delete_bytes, serialize_delete_lem, Parses-deserialize_delete,
  clr_insert_bytes, serialize_clr_insert_lem, Parses-deserialize_clr_insert, clr_update_bytes,
  serialize_clr_update_lem, Parses-deserialize_clr_update, clr_delete_bytes,
  serialize_clr_delete_lem, Parses-deserialize_clr_delete,
}
use deltabase_c.Wal.Schema.RoundTrip.{
  create_schema_bytes, serialize_create_schema_lem, Parses-deserialize_create_schema,
  update_schema_bytes, serialize_update_schema_lem, Parses-deserialize_update_schema,
  delete_schema_bytes, serialize_delete_schema_lem, Parses-deserialize_delete_schema,
  clr_create_schema_bytes, serialize_clr_create_schema_lem, Parses-deserialize_clr_create_schema,
  clr_update_schema_bytes, serialize_clr_update_schema_lem, Parses-deserialize_clr_update_schema,
  clr_delete_schema_bytes, serialize_clr_delete_schema_lem, Parses-deserialize_clr_delete_schema,
}
use deltabase_c.Wal.Table.RoundTrip.{
  create_table_bytes, serialize_create_table_lem, Parses-deserialize_create_table,
  update_table_bytes, serialize_update_table_lem, Parses-deserialize_update_table,
  delete_table_bytes, serialize_delete_table_lem, Parses-deserialize_delete_table,
  clr_create_table_bytes, serialize_clr_create_table_lem, Parses-deserialize_clr_create_table,
  clr_update_table_bytes, serialize_clr_update_table_lem, Parses-deserialize_clr_update_table,
  clr_delete_table_bytes, serialize_clr_delete_table_lem, Parses-deserialize_clr_delete_table,
}
use deltabase_c.Wal.Index.RoundTrip.{
  create_index_bytes, serialize_create_index_lem, Parses-deserialize_create_index,
  clr_create_index_bytes, serialize_clr_create_index_lem, Parses-deserialize_clr_create_index,
  drop_index_bytes, serialize_drop_index_lem, Parses-deserialize_drop_index, clr_drop_index_bytes,
  serialize_clr_drop_index_lem, Parses-deserialize_clr_drop_index,
}

pub type_of : WalRecord → WalRecordType
type_of (WalRecord.insert r) = WalRecordType.insert
type_of (WalRecord.update r) = WalRecordType.update
type_of (WalRecord.delete r) = WalRecordType.delete
type_of (WalRecord.create_table r) = WalRecordType.create_table
type_of (WalRecord.update_table r) = WalRecordType.update_table
type_of (WalRecord.delete_table r) = WalRecordType.delete_table
type_of (WalRecord.create_schema r) = WalRecordType.create_schema
type_of (WalRecord.update_schema r) = WalRecordType.update_schema
type_of (WalRecord.delete_schema r) = WalRecordType.delete_schema
type_of (WalRecord.begin_txn r) = WalRecordType.begin_txn
type_of (WalRecord.commit_txn r) = WalRecordType.commit_txn
type_of (WalRecord.rollback_txn r) = WalRecordType.rollback_txn
type_of (WalRecord.clr_insert r) = WalRecordType.clr_insert
type_of (WalRecord.clr_update r) = WalRecordType.clr_update
type_of (WalRecord.clr_delete r) = WalRecordType.clr_delete
type_of (WalRecord.clr_create_schema r) = WalRecordType.clr_create_schema
type_of (WalRecord.clr_update_schema r) = WalRecordType.clr_update_schema
type_of (WalRecord.clr_delete_schema r) = WalRecordType.clr_delete_schema
type_of (WalRecord.clr_create_table r) = WalRecordType.clr_create_table
type_of (WalRecord.clr_update_table r) = WalRecordType.clr_update_table
type_of (WalRecord.clr_delete_table r) = WalRecordType.clr_delete_table
type_of (WalRecord.create_index r) = WalRecordType.create_index
type_of (WalRecord.clr_create_index r) = WalRecordType.clr_create_index
type_of (WalRecord.drop_index r) = WalRecordType.drop_index
type_of (WalRecord.clr_drop_index r) = WalRecordType.clr_drop_index

pub payload : WalRecord → List ℕ
payload (WalRecord.insert r) = insert_bytes r
payload (WalRecord.update r) = update_bytes r
payload (WalRecord.delete r) = delete_bytes r
payload (WalRecord.create_table r) = create_table_bytes r
payload (WalRecord.update_table r) = update_table_bytes r
payload (WalRecord.delete_table r) = delete_table_bytes r
payload (WalRecord.create_schema r) = create_schema_bytes r
payload (WalRecord.update_schema r) = update_schema_bytes r
payload (WalRecord.delete_schema r) = delete_schema_bytes r
payload (WalRecord.begin_txn r) = begin_txn_bytes r
payload (WalRecord.commit_txn r) = commit_txn_bytes r
payload (WalRecord.rollback_txn r) = rollback_txn_bytes r
payload (WalRecord.clr_insert r) = clr_insert_bytes r
payload (WalRecord.clr_update r) = clr_update_bytes r
payload (WalRecord.clr_delete r) = clr_delete_bytes r
payload (WalRecord.clr_create_schema r) = clr_create_schema_bytes r
payload (WalRecord.clr_update_schema r) = clr_update_schema_bytes r
payload (WalRecord.clr_delete_schema r) = clr_delete_schema_bytes r
payload (WalRecord.clr_create_table r) = clr_create_table_bytes r
payload (WalRecord.clr_update_table r) = clr_update_table_bytes r
payload (WalRecord.clr_delete_table r) = clr_delete_table_bytes r
payload (WalRecord.create_index r) = create_index_bytes r
payload (WalRecord.clr_create_index r) = clr_create_index_bytes r
payload (WalRecord.drop_index r) = drop_index_bytes r
payload (WalRecord.clr_drop_index r) = clr_drop_index_bytes r

pub serialize_lem :
    (r : WalRecord) → (serialize r).buffer ≡ le_bytes 8 (code (type_of r)) ++ payload r
unfolding serialize type_of payload
serialize_lem (WalRecord.insert r) = serialize_insert_lem r
serialize_lem (WalRecord.update r) = serialize_update_lem r
serialize_lem (WalRecord.delete r) = serialize_delete_lem r
serialize_lem (WalRecord.create_table r) = serialize_create_table_lem r
serialize_lem (WalRecord.update_table r) = serialize_update_table_lem r
serialize_lem (WalRecord.delete_table r) = serialize_delete_table_lem r
serialize_lem (WalRecord.create_schema r) = serialize_create_schema_lem r
serialize_lem (WalRecord.update_schema r) = serialize_update_schema_lem r
serialize_lem (WalRecord.delete_schema r) = serialize_delete_schema_lem r
serialize_lem (WalRecord.begin_txn r) = serialize_begin_txn_lem r
serialize_lem (WalRecord.commit_txn r) = serialize_commit_txn_lem r
serialize_lem (WalRecord.rollback_txn r) = serialize_rollback_txn_lem r
serialize_lem (WalRecord.clr_insert r) = serialize_clr_insert_lem r
serialize_lem (WalRecord.clr_update r) = serialize_clr_update_lem r
serialize_lem (WalRecord.clr_delete r) = serialize_clr_delete_lem r
serialize_lem (WalRecord.clr_create_schema r) = serialize_clr_create_schema_lem r
serialize_lem (WalRecord.clr_update_schema r) = serialize_clr_update_schema_lem r
serialize_lem (WalRecord.clr_delete_schema r) = serialize_clr_delete_schema_lem r
serialize_lem (WalRecord.clr_create_table r) = serialize_clr_create_table_lem r
serialize_lem (WalRecord.clr_update_table r) = serialize_clr_update_table_lem r
serialize_lem (WalRecord.clr_delete_table r) = serialize_clr_delete_table_lem r
serialize_lem (WalRecord.create_index r) = serialize_create_index_lem r
serialize_lem (WalRecord.clr_create_index r) = serialize_clr_create_index_lem r
serialize_lem (WalRecord.drop_index r) = serialize_drop_index_lem r
serialize_lem (WalRecord.clr_drop_index r) = serialize_clr_drop_index_lem r

payload_part :
    (ls : Locals) (r : WalRecord)
    → IsLocals ls
    → IsWalRecord r
    → Parses (deserialize_as ls (type_of r)) (payload r) r
unfolding deserialize_as type_of payload
payload_part ls (WalRecord.insert r) hl h =
    Parses-map WalRecord.insert (Parses-deserialize_insert ls r hl h.0 h.1 h.2 h.3)
payload_part ls (WalRecord.update r) hl h =
    Parses-map WalRecord.update (Parses-deserialize_update ls r hl h.0 h.1 h.2 h.3 h.4)
payload_part ls (WalRecord.delete r) hl h =
    Parses-map WalRecord.delete (Parses-deserialize_delete ls r hl h.0 h.1 h.2 h.3)
payload_part ls (WalRecord.create_table r) hl h =
    Parses-map WalRecord.create_table (Parses-deserialize_create_table ls r hl h.0 h.1)
payload_part ls (WalRecord.update_table r) hl h =
    Parses-map WalRecord.update_table (Parses-deserialize_update_table ls r hl h.0 h.1 h.2)
payload_part ls (WalRecord.delete_table r) hl h =
    Parses-map WalRecord.delete_table (Parses-deserialize_delete_table ls r hl h.0 h.1)
payload_part ls (WalRecord.create_schema r) hl h =
    Parses-map WalRecord.create_schema (Parses-deserialize_create_schema ls r hl h.0 h.1)
payload_part ls (WalRecord.update_schema r) hl h =
    Parses-map WalRecord.update_schema (Parses-deserialize_update_schema ls r hl h.0 h.1 h.2)
payload_part ls (WalRecord.delete_schema r) hl h =
    Parses-map WalRecord.delete_schema (Parses-deserialize_delete_schema ls r hl h.0 h.1)
payload_part ls (WalRecord.begin_txn r) hl h =
    Parses-map WalRecord.begin_txn (Parses-deserialize_begin_txn ls r hl h)
payload_part ls (WalRecord.commit_txn r) hl h =
    Parses-map WalRecord.commit_txn (Parses-deserialize_commit_txn ls r hl h)
payload_part ls (WalRecord.rollback_txn r) hl h =
    Parses-map WalRecord.rollback_txn (Parses-deserialize_rollback_txn ls r hl h)
payload_part ls (WalRecord.clr_insert r) hl h =
    Parses-map WalRecord.clr_insert (Parses-deserialize_clr_insert ls r hl h.0 h.1 h.2 h.3 h.4)
payload_part ls (WalRecord.clr_update r) hl h =
    Parses-map WalRecord.clr_update (Parses-deserialize_clr_update ls r hl h.0 h.1 h.2 h.3 h.4 h.5)
payload_part ls (WalRecord.clr_delete r) hl h =
    Parses-map WalRecord.clr_delete (Parses-deserialize_clr_delete ls r hl h.0 h.1 h.2 h.3 h.4)
payload_part ls (WalRecord.clr_create_schema r) hl h =
    Parses-map WalRecord.clr_create_schema
      (Parses-deserialize_clr_create_schema ls r hl h.0 h.1 h.2)
payload_part ls (WalRecord.clr_update_schema r) hl h =
    Parses-map WalRecord.clr_update_schema
      (Parses-deserialize_clr_update_schema ls r hl h.0 h.1 h.2 h.3)
payload_part ls (WalRecord.clr_delete_schema r) hl h =
    Parses-map WalRecord.clr_delete_schema
      (Parses-deserialize_clr_delete_schema ls r hl h.0 h.1 h.2)
payload_part ls (WalRecord.clr_create_table r) hl h =
    Parses-map WalRecord.clr_create_table (Parses-deserialize_clr_create_table ls r hl h.0 h.1 h.2)
payload_part ls (WalRecord.clr_update_table r) hl h =
    Parses-map WalRecord.clr_update_table
      (Parses-deserialize_clr_update_table ls r hl h.0 h.1 h.2 h.3)
payload_part ls (WalRecord.clr_delete_table r) hl h =
    Parses-map WalRecord.clr_delete_table (Parses-deserialize_clr_delete_table ls r hl h.0 h.1 h.2)
payload_part ls (WalRecord.create_index r) hl h =
    Parses-map WalRecord.create_index (Parses-deserialize_create_index ls r hl h.0 h.1)
payload_part ls (WalRecord.clr_create_index r) hl h =
    Parses-map WalRecord.clr_create_index (Parses-deserialize_clr_create_index ls r hl h.0 h.1 h.2)
payload_part ls (WalRecord.drop_index r) hl h =
    Parses-map WalRecord.drop_index (Parses-deserialize_drop_index ls r hl h.0 h.1)
payload_part ls (WalRecord.clr_drop_index r) hl h =
    Parses-map WalRecord.clr_drop_index (Parses-deserialize_clr_drop_index ls r hl h.0 h.1 h.2)

-- Whatever the uninitialised locals of `deserialize` held, a record with identifiers of 16 bytes
-- and numbers in range is read back as it was serialized, wherever its bytes stand in a stream, and
-- the stream stops behind it.
pub deserialize-serialize :
    (ls : Locals) (r : WalRecord)
    → IsLocals ls
    → IsWalRecord r
    → Parses (deserialize ls) (serialize r).buffer r
unfolding deserialize
deserialize-serialize ls r hl h = rw (serialize_lem r) (
    Parses-bind _ (word_part (code (type_of r)) ls.type hl.type (code-IsU64 (type_of r)))
      (rw (of_code-code (type_of r)) (payload_part ls r hl h)))

pub length-serialize_begin_txn :
    (r : BeginTxnRecord)
    → IsHeader r.header
    → length (serialize (WalRecord.begin_txn r)).buffer ≡ 40
unfolding serialize
length-serialize_begin_txn r h =
    rw (serialize_begin_txn_lem r)
      (unfold begin_txn_bytes header_bytes in simp (length-append, length-le_bytes, h.txn_id))
