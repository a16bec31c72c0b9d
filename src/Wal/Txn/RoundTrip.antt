-- ===== src/Wal/Txn/RoundTrip.antt =====
-- The log records about transactions are read back as they were written.
use deltabase_c.Prelude.{ℕ, ◌≡◌, List, [], ◌∷◌, ◌++◌, append-nil}
use deltabase_c.Stream.Word.{le_bytes}
use deltabase_c.Stream.{Parses, Parses-bind, Parses-pure, writing}
use deltabase_c.Types.WalLog.{WalRecordType}
use deltabase_c.Types.WalLog.Codes.{code}
use deltabase_c.Types.WalLog.Txn.{IsHeader}
use deltabase_c.Types.WalLog.Txn.{BeginTxnRecord, CommitTxnRecord, RollbackTxnRecord}
use deltabase_c.Storage.Encode.Layout.{layout}
use deltabase_c.Wal.Locals.{Locals, IsLocals, header_bytes, header_part}
use deltabase_c.Wal.Txn.{
  serialize_begin_txn, deserialize_begin_txn, serialize_commit_txn, deserialize_commit_txn,
  serialize_rollback_txn, deserialize_rollback_txn,
}

unfoldable pub begin_txn_bytes : BeginTxnRecord → List ℕ
begin_txn_bytes r = layout (header_bytes r.header ∷ [])

pub serialize_begin_txn_lem :
    (r : BeginTxnRecord)
    → (serialize_begin_txn r).buffer
      ≡ le_bytes 8 (code WalRecordType.begin_txn) ++ begin_txn_bytes r
unfolding serialize_begin_txn begin_txn_bytes header_bytes
serialize_begin_txn_lem r = simp (writing, append-nil)

pub Parses-deserialize_begin_txn :
    (ls : Locals) (r : BeginTxnRecord)
    → IsLocals ls
    → IsHeader r.header
    → Parses (deserialize_begin_txn ls) (begin_txn_bytes r) r
unfolding deserialize_begin_txn begin_txn_bytes
Parses-deserialize_begin_txn ls r hl h =
    Parses-bind _ (header_part ls r.header hl h) (Parses-pure _)

unfoldable pub commit_txn_bytes : CommitTxnRecord → List ℕ
commit_txn_bytes r = layout (header_bytes r.header ∷ [])

pub serialize_commit_txn_lem :
    (r : CommitTxnRecord)
    → (serialize_commit_txn r).buffer
      ≡ le_bytes 8 (code WalRecordType.commit_txn) ++ commit_txn_bytes r
unfolding serialize_commit_txn commit_txn_bytes header_bytes
serialize_commit_txn_lem r = simp (writing, append-nil)

pub Parses-deserialize_commit_txn :
    (ls : Locals) (r : CommitTxnRecord)
    → IsLocals ls
    → IsHeader r.header
    → Parses (deserialize_commit_txn ls) (commit_txn_bytes r) r
unfolding deserialize_commit_txn commit_txn_bytes
Parses-deserialize_commit_txn ls r hl h =
    Parses-bind _ (header_part ls r.header hl h) (Parses-pure _)

unfoldable pub rollback_txn_bytes : RollbackTxnRecord → List ℕ
rollback_txn_bytes r = layout (header_bytes r.header ∷ [])

pub serialize_rollback_txn_lem :
    (r : RollbackTxnRecord)
    → (serialize_rollback_txn r).buffer
      ≡ le_bytes 8 (code WalRecordType.rollback_txn) ++ rollback_txn_bytes r
unfolding serialize_rollback_txn rollback_txn_bytes header_bytes
serialize_rollback_txn_lem r = simp (writing, append-nil)

pub Parses-deserialize_rollback_txn :
    (ls : Locals) (r : RollbackTxnRecord)
    → IsLocals ls
    → IsHeader r.header
    → Parses (deserialize_rollback_txn ls) (rollback_txn_bytes r) r
unfolding deserialize_rollback_txn rollback_txn_bytes
Parses-deserialize_rollback_txn ls r hl h =
    Parses-bind _ (header_part ls r.header hl h) (Parses-pure _)
