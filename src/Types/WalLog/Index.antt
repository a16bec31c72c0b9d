-- ===== src/Types/WalLog/Index.antt =====
-- wal_log.hpp: the records about indexes, with their compensation records (CLR).
use deltabase_c.Prelude.{ℕ}
use deltabase_c.Types.Meta.{MetaIndex}
use deltabase_c.Types.WalLog.Txn.{Header}

pub record CreateIndexRecord : Type 0 where
  pub header : Header
  pub open header use *
  pub after : MetaIndex

pub record ClrCreateIndexRecord : Type 0 where
  pub header : Header
  pub open header use *
  pub undo_next_lsn : ℕ
  pub after : MetaIndex

pub record DropIndexRecord : Type 0 where
  pub header : Header
  pub open header use *
  pub before : MetaIndex

pub record ClrDropIndexRecord : Type 0 where
  pub header : Header
  pub open header use *
  pub undo_next_lsn : ℕ
  pub before : MetaIndex
