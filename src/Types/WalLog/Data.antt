-- ===== src/Types/WalLog/Data.antt =====
-- wal_log.hpp: the records about rows, with their compensation records (CLR).
use deltabase_c.Prelude.{ℕ}
use deltabase_c.Types.Value.{Uuid}
use deltabase_c.Types.Value.{DataRow}
use deltabase_c.Types.WalLog.Txn.{Header}

pub record InsertRecord : Type 0 where
  pub header : Header
  pub open header use *
  pub table_id : Uuid
  pub page_id : Uuid
  pub after : DataRow

pub record UpdateRecord : Type 0 where
  pub header : Header
  pub open header use *
  pub table_id : Uuid
  pub page_id : Uuid
  pub before : DataRow
  pub after : DataRow

pub record DeleteRecord : Type 0 where
  pub header : Header
  pub open header use *
  pub table_id : Uuid
  pub page_id : Uuid
  pub before : DataRow

pub record ClrInsertRecord : Type 0 where
  pub header : Header
  pub open header use *
  pub table_id : Uuid
  pub page_id : Uuid
  pub undo_next_lsn : ℕ
  pub after : DataRow

pub record ClrUpdateRecord : Type 0 where
  pub header : Header
  pub open header use *
  pub table_id : Uuid
  pub page_id : Uuid
  pub undo_next_lsn : ℕ
  pub before : DataRow
  pub after : DataRow

pub record ClrDeleteRecord : Type 0 where
  pub header : Header
  pub open header use *
  pub table_id : Uuid
  pub page_id : Uuid
  pub undo_next_lsn : ℕ
  pub before : DataRow
