-- ===== src/Types/WalLog/Schema.antt =====
-- wal_log.hpp: the records about schemas, with their compensation records (CLR).
use deltabase_c.Prelude.{ℕ}
use deltabase_c.Types.Meta.{MetaSchema}
use deltabase_c.Types.WalLog.Txn.{Header}

pub record CreateSchemaRecord : Type 0 where
  pub header : Header
  pub open header use *
  pub schema : MetaSchema

pub record UpdateSchemaRecord : Type 0 where
  pub header : Header
  pub open header use *
  pub before : MetaSchema
  pub after : MetaSchema

pub record DeleteSchemaRecord : Type 0 where
  pub header : Header
  pub open header use *
  pub before : MetaSchema

pub record ClrCreateSchemaRecord : Type 0 where
  pub header : Header
  pub open header use *
  pub undo_next_lsn : ℕ
  pub schema : MetaSchema

pub record ClrUpdateSchemaRecord : Type 0 where
  pub header : Header
  pub open header use *
  pub undo_next_lsn : ℕ
  pub before : MetaSchema
  pub after : MetaSchema

pub record ClrDeleteSchemaRecord : Type 0 where
  pub header : Header
  pub open header use *
  pub undo_next_lsn : ℕ
  pub before : MetaSchema
