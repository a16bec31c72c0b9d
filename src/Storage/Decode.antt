-- ===== src/Storage/Decode.antt =====
-- The `deserialize_` methods of std_storage_serializer.cpp. `out` is returned, and passed in where a
-- method leaves a part of it as it was.
pub mod RoundTrip
pub mod IndexRoundTrip
use deltabase_c.Prelude.{◌∷◌, ℕ, List, [], Bool, true, false, not, ◌==◌}
use deltabase_c.Stream.{Reader, ◌>>=◌, pure, read_exactly, read_over, read_word, read_many}
use deltabase_c.Stream.Word.{of_le}
use deltabase_c.Types.Value.{Uuid, null_uuid, DataType, null, of_u64, DataToken, DataRow}
use deltabase_c.Types.Meta.{MetaSchema, MetaColumn, MetaIndex, MetaTable}
use deltabase_c.Types.Page.{DataPage, RowPtr, IndexNode, internal, leaf, IndexPage, IndexFile}

abbrev pub read_u64 : Reader ℕ
read_u64 = read_word 8

abbrev pub read_u32 : Reader ℕ
read_u32 = read_word 4

abbrev pub read_uuid : Reader Uuid
read_uuid = read_exactly 16

pub read_bool : Reader Bool
read_bool = do b ← read_word 1; pure (not (b == 0))

pub read_type : Reader DataType
read_type = do t ← read_u64; pure (of_u64 t)

pub read_str : Reader (List ℕ)
read_str = do size ← read_u64; read_exactly size

pub deserialize_ms : Reader MetaSchema
deserialize_ms = do
  id ← read_over 16 null_uuid
  name ← read_str
  db_name ← read_str
  pure (record { id = id; name = name; db_name = db_name })

pub deserialize_mc : Reader MetaColumn
deserialize_mc = do
  id ← read_uuid
  table_id ← read_uuid
  name ← read_str
  type ← read_type
  flags ← read_u32
  pure (record { id = id; table_id = table_id; name = name; type = type; flags = flags })

pub deserialize_mi : Reader MetaIndex
deserialize_mi = do
  id ← read_uuid
  table_id ← read_uuid
  column_id ← read_uuid
  root_page_id ← read_uuid
  name ← read_str
  is_unique ← read_bool
  key_type ← read_type
  pure (record {
    id = id;
    table_id = table_id;
    column_id = column_id;
    root_page_id = root_page_id;
    name = name;
    key_type = key_type;
    is_unique = is_unique;
  })

-- `stream.read(&x, sizeof(x))` with the count ignored, over a number that was 0.
abbrev pub read_u64_over : Reader ℕ
read_u64_over = do bs ← read_over 8 (0 ∷ 0 ∷ 0 ∷ 0 ∷ 0 ∷ 0 ∷ 0 ∷ 0 ∷ []); pure (of_le bs)

pub deserialize_mt : Reader MetaTable
deserialize_mt = do
  id ← read_over 16 null_uuid
  schema_id ← read_over 16 null_uuid
  name ← read_str
  total_rows ← read_u64_over
  live_rows ← read_u64_over
  column_count ← read_u64
  columns ← read_many deserialize_mc column_count
  last_rid ← read_u64
  indexes_count ← read_u64
  indexes ← read_many deserialize_mi indexes_count
  pure (record {
    id = id;
    schema_id = schema_id;
    name = name;
    columns = columns;
    indexes = indexes;
    last_rid = last_rid;
    total_rows = total_rows;
    live_rows = live_rows;
  })

-- The bytes of a null token stay as they were in the new token: empty.
pub read_bytes_unless_null : DataType → Reader (List ℕ)
read_bytes_unless_null null = pure []
read_bytes_unless_null _ = do size ← read_u64; read_exactly size

pub deserialize_dt : Reader DataToken
deserialize_dt = do
  type ← read_type
  bytes ← read_bytes_unless_null type
  pure (record { bytes = bytes; type = type })

pub deserialize_dr : Reader DataRow
deserialize_dr = do
  id ← read_u64
  flags ← read_u32
  tokens_count ← read_u64
  tokens ← read_many deserialize_dt tokens_count
  pure (record { id = id; flags = flags; tokens = tokens })

-- `size` and `path` stay as they are in `out`.
pub deserialize_dp : DataPage → Reader DataPage
deserialize_dp out = do
  id ← read_uuid
  next ← read_uuid
  table_id ← read_uuid
  min_rid ← read_u64
  max_rid ← read_u64
  rows_count ← read_u64
  last_lsn ← read_u64
  rows ← read_many deserialize_dr rows_count
  pure (record {
    id = id;
    next = next;
    table_id = table_id;
    min_rid = min_rid;
    max_rid = max_rid;
    rows_count = rows_count;
    last_lsn = last_lsn;
    size = out.size;
    path = out.path;
    rows = rows;
  })

read_row_ptr : Reader RowPtr
read_row_ptr = do page ← read_uuid; row ← read_u64; pure (page, row)

read_leaf : Reader IndexNode
unfolding read_row_ptr
read_leaf = do
  keys_count ← read_u64
  keys ← read_many deserialize_dt keys_count
  rows_count ← read_u64
  rows ← read_many read_row_ptr rows_count
  next_leaf ← read_u64
  pure (leaf (record { keys = keys; rows = rows; next_leaf = next_leaf }))

read_internal : Reader IndexNode
read_internal = do
  keys_count ← read_u64
  keys ← read_many deserialize_dt keys_count
  children_count ← read_u64
  children ← read_many read_u64 children_count
  pure (internal (record { keys = keys; children = children }))

read_node : Bool → Reader IndexNode
read_node true = read_leaf
read_node false = read_internal

pub deserialize_ip : Reader IndexPage
deserialize_ip = do
  id ← read_u64
  parent ← read_u64
  index_id ← read_uuid
  is_leaf ← read_bool
  node ← read_node is_leaf
  pure (record { id = id; parent = parent; index_id = index_id; is_leaf = is_leaf; node = node })

-- `last_page` stays as it is in `out`.
pub deserialize_if : IndexFile → Reader IndexFile
deserialize_if out = do
  index_id ← read_uuid
  root_page ← read_u64
  last_lsn ← read_u64
  pages_count ← read_u64
  pages ← read_many deserialize_ip pages_count
  pure (record {
    index_id = index_id;
    root_page = root_page;
    last_page = out.last_page;
    last_lsn = last_lsn;
    pages = pages;
  })
