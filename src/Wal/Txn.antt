-- ===== src/Wal/Txn.antt =====
-- std_wal_serializer.cpp: the records about transactions. A reader of the log puts them together in `Serializer`.
pub mod RoundTrip
use deltabase_c.Prelude.{ℕ, List}
use deltabase_c.Stream.{
  MemoryStream, empty, write, ◌▹◌, Reader, ◌>>=◌, pure, read_some, read_word_some,
}
use deltabase_c.Types.Value.{null_uuid}
use deltabase_c.Types.WalLog.{WalRecordType}
use deltabase_c.Types.WalLog.Codes.{code}
use deltabase_c.Types.WalLog.Txn.{BeginTxnRecord, CommitTxnRecord, RollbackTxnRecord}
use deltabase_c.Storage.Encode.{write_u64, append_all}
use deltabase_c.Wal.Locals.{Locals, read_header}

pub serialize_begin_txn : BeginTxnRecord → MemoryStream
serialize_begin_txn r =
    empty
    ▹ write_u64 (code WalRecordType.begin_txn)
    ▹ write_u64 r.lsn
    ▹ write_u64 r.prev_lsn
    ▹ write r.txn_id

pub deserialize_begin_txn : Locals → Reader BeginTxnRecord
deserialize_begin_txn locals = do header ← read_header locals; pure (record { header = header })

pub serialize_commit_txn : CommitTxnRecord → MemoryStream
serialize_commit_txn r =
    empty
    ▹ write_u64 (code WalRecordType.commit_txn)
    ▹ write_u64 r.lsn
    ▹ write_u64 r.prev_lsn
    ▹ write r.txn_id

pub deserialize_commit_txn : Locals → Reader CommitTxnRecord
deserialize_commit_txn locals = do header ← read_header locals; pure (record { header = header })

pub serialize_rollback_txn : RollbackTxnRecord → MemoryStream
serialize_rollback_txn r =
    empty
    ▹ write_u64 (code WalRecordType.rollback_txn)
    ▹ write_u64 r.lsn
    ▹ write_u64 r.prev_lsn
    ▹ write r.txn_id

pub deserialize_rollback_txn : Locals → Reader RollbackTxnRecord
deserialize_rollback_txn locals = do header ← read_header locals; pure (record { header = header })
