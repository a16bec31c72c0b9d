-- ===== src/Types/Meta.antt =====
-- meta_schema.hpp, meta_column.hpp, meta_index.hpp and meta_table.hpp.
use deltabase_c.Prelude.{ℕ, List, Bool, length, All}
use deltabase_c.Stream.Word.{IsU64, IsU32}
use deltabase_c.Types.Value.{Uuid, IsUuid, DataType, IsDataType}

pub record MetaSchema : Type 0 where
  pub id : Uuid
  pub name : List ℕ
  pub db_name : List ℕ

pub record MetaColumn : Type 0 where
  pub id : Uuid
  pub table_id : Uuid
  pub name : List ℕ
  pub type : DataType
  pub flags : ℕ

pub record MetaIndex : Type 0 where
  pub id : Uuid
  pub table_id : Uuid
  pub column_id : Uuid
  pub root_page_id : Uuid
  pub name : List ℕ
  pub key_type : DataType
  pub is_unique : Bool

pub record MetaTable : Type 0 where
  pub id : Uuid
  pub schema_id : Uuid
  pub name : List ℕ
  pub columns : List MetaColumn
  pub indexes : List MetaIndex
  pub last_rid : ℕ
  pub total_rows : ℕ
  pub live_rows : ℕ

-- What the C++ types give for nothing: identifiers of 16 bytes, numbers in range, lengths that a
-- `size_t` holds.
pub record IsSchema (s : MetaSchema) : Type 0 where
  pub id : IsUuid s.id
  pub name : IsU64 (length s.name)
  pub db_name : IsU64 (length s.db_name)

pub record IsColumn (c : MetaColumn) : Type 0 where
  pub id : IsUuid c.id
  pub table_id : IsUuid c.table_id
  pub name : IsU64 (length c.name)
  pub type : IsDataType c.type
  pub flags : IsU32 c.flags

pub record IsIndex (i : MetaIndex) : Type 0 where
  pub id : IsUuid i.id
  pub table_id : IsUuid i.table_id
  pub column_id : IsUuid i.column_id
  pub root_page_id : IsUuid i.root_page_id
  pub name : IsU64 (length i.name)
  pub key_type : IsDataType i.key_type

pub record IsTable (t : MetaTable) : Type 0 where
  pub id : IsUuid t.id
  pub schema_id : IsUuid t.schema_id
  pub name : IsU64 (length t.name)
  pub column_count : IsU64 (length t.columns)
  pub columns : All IsColumn t.columns
  pub index_count : IsU64 (length t.indexes)
  pub indexes : All IsIndex t.indexes
  pub last_rid : IsU64 t.last_rid
  pub total_rows : IsU64 t.total_rows
  pub live_rows : IsU64 t.live_rows
