-- ===== src/Types/WalLog/Table.antt =====
-- wal_log.hpp: the records about tables, with their compensation records (CLR).
use deltabase_c.Prelude.{ℕ}
use deltabase_c.Types.Meta.{MetaTable}
use deltabase_c.Types.WalLog.Txn.{Header}

pub record CreateTableRecord : Type 0 where
  pub header : Header
  pub open header use *
  pub after : MetaTable

pub record UpdateTableRecord : Type 0 where
  pub header : Header
  pub open header use *
  pub before : MetaTable
  pub after : MetaTable

pub record DeleteTableRecord : Type 0 where
  pub header : Header
  pub open header use *
  pub before : MetaTable

pub record ClrCreateTableRecord : Type 0 where
  pub header : Header
  pub open header use *
  pub undo_next_lsn : ℕ
  pub after : MetaTable

pub record ClrUpdateTableRecord : Type 0 where
  pub header : Header
  pub open header use *
  pub undo_next_lsn : ℕ
  pub before : MetaTable
  pub after : MetaTable

pub record ClrDeleteTableRecord : Type 0 where
  pub header : Header
  pub open header use *
  pub undo_next_lsn : ℕ
  pub before : MetaTable
