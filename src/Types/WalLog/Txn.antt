-- ===== src/Types/WalLog/Txn.antt =====
-- wal_log.hpp: what every record of the log begins with, and the records of transactions.
use deltabase_c.Prelude.{ℕ}
use deltabase_c.Stream.Word.{IsU64}
use deltabase_c.Types.Value.{Uuid, IsUuid}

-- `prev_lsn` is the record that the same transaction wrote before.
pub record Header : Type 0 where
  pub lsn : ℕ
  pub prev_lsn : ℕ
  pub txn_id : Uuid

pub record IsHeader (h : Header) : Type 0 where
  pub lsn : IsU64 h.lsn
  pub prev_lsn : IsU64 h.prev_lsn
  pub txn_id : IsUuid h.txn_id

pub record BeginTxnRecord : Type 0 where
  pub header : Header
  pub open header use *

pub record CommitTxnRecord : Type 0 where
  pub header : Header
  pub open header use *

pub record RollbackTxnRecord : Type 0 where
  pub header : Header
  pub open header use *
