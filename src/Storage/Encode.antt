-- ===== src/Storage/Encode.antt =====
-- The `serialize_` methods of std_storage_serializer.cpp. Each ends with `seek(0)`, so that its
-- result is read from the start.
pub mod Layout
pub mod IndexLayout
use deltabase_c.Prelude.{ℕ, List, Bool, true, false, length}
use deltabase_c.Stream.Word.{le_bytes}
use deltabase_c.Stream.{MemoryStream, empty, size, write, append, rewind, for_each, ◌▹◌}
use deltabase_c.Types.Value.{DataType, null, to_u64, DataToken, DataRow}
use deltabase_c.Types.Meta.{MetaSchema, MetaColumn, MetaIndex, MetaTable}
use deltabase_c.Types.Page.{DataPage, IndexNode, internal, leaf, IndexPage, IndexFile}

-- `stream.write(&x, sizeof(x))` at the sizes that occur.
abbrev pub write_u64 : ℕ → MemoryStream → MemoryStream
write_u64 v = write (le_bytes 8 v)

abbrev pub write_u32 : ℕ → MemoryStream → MemoryStream
write_u32 v = write (le_bytes 4 v)

unfoldable pub bool_byte : Bool → ℕ
bool_byte true = 1
bool_byte false = 0

abbrev pub write_bool : Bool → MemoryStream → MemoryStream
write_bool b = write (le_bytes 1 (bool_byte b))

-- `stream.append(other, other.size())`.
abbrev pub append_all : MemoryStream → MemoryStream → MemoryStream
append_all other = append other (size other)

pub write_str : List ℕ → MemoryStream → MemoryStream
write_str str stream = stream ▹ write_u64 (length str) ▹ write str

pub serialize_ms : MetaSchema → MemoryStream
serialize_ms schema =
    empty ▹ write schema.id ▹ write_str schema.name ▹ write_str schema.db_name ▹ rewind

pub serialize_mc : MetaColumn → MemoryStream
serialize_mc column =
    empty
    ▹ write column.id
    ▹ write column.table_id
    ▹ write_str column.name
    ▹ write_u64 (to_u64 column.type)
    ▹ write_u32 column.flags
    ▹ rewind

pub serialize_mi : MetaIndex → MemoryStream
serialize_mi index =
    empty
    ▹ write index.id
    ▹ write index.table_id
    ▹ write index.column_id
    ▹ write index.root_page_id
    ▹ write_str index.name
    ▹ write_bool index.is_unique
    ▹ write_u64 (to_u64 index.key_type)
    ▹ rewind

pub serialize_mt : MetaTable → MemoryStream
serialize_mt table =
    empty
    ▹ write table.id
    ▹ write table.schema_id
    ▹ write_str table.name
    ▹ write_u64 table.total_rows
    ▹ write_u64 table.live_rows
    ▹ write_u64 (length table.columns)
    ▹ for_each table.columns (λ column. write (serialize_mc column).buffer)
    ▹ write_u64 table.last_rid
    ▹ write_u64 (length table.indexes)
    ▹ for_each table.indexes (λ index. write (serialize_mi index).buffer)
    ▹ rewind

-- The size and the bytes are left out for a null token.
pub write_bytes_unless_null : DataType → List ℕ → MemoryStream → MemoryStream
write_bytes_unless_null null bytes stream = stream
write_bytes_unless_null _ bytes stream = stream ▹ write_u64 (length bytes) ▹ write bytes

pub serialize_dt : DataToken → MemoryStream
serialize_dt token =
    empty ▹ write_u64 (to_u64 token.type) ▹ write_bytes_unless_null token.type token.bytes ▹ rewind

pub serialize_dr : DataRow → MemoryStream
serialize_dr row =
    empty
    ▹ write_u64 row.id
    ▹ write_u32 row.flags
    ▹ write_u64 (length row.tokens)
    ▹ for_each row.tokens (λ token. append_all (serialize_dt token))
    ▹ rewind

pub serialize_dp : DataPage → MemoryStream
serialize_dp page =
    empty
    ▹ write page.id
    ▹ write page.next
    ▹ write page.table_id
    ▹ write_u64 page.min_rid
    ▹ write_u64 page.max_rid
    ▹ write_u64 (length page.rows)
    ▹ write_u64 page.last_lsn
    ▹ for_each page.rows (λ row. append_all (serialize_dr row))
    ▹ rewind

write_node : IndexNode → MemoryStream → MemoryStream
write_node (internal node) stream =
    stream
    ▹ write_u64 (length node.keys)
    ▹ for_each node.keys (λ key. append_all (serialize_dt key))
    ▹ write_u64 (length node.children)
    ▹ for_each node.children (λ child_id. write_u64 child_id)
write_node (leaf node) stream =
    stream
    ▹ write_u64 (length node.keys)
    ▹ for_each node.keys (λ key. append_all (serialize_dt key))
    ▹ write_u64 (length node.rows)
    ▹ for_each node.rows (λ row stream'. stream' ▹ write row.0 ▹ write_u64 row.1)
    ▹ write_u64 node.next_leaf

pub serialize_ip : IndexPage → MemoryStream
serialize_ip page =
    empty
    ▹ write_u64 page.id
    ▹ write_u64 page.parent
    ▹ write page.index_id
    ▹ write_bool page.is_leaf
    ▹ write_node page.node
    ▹ rewind

-- `last_page` is not written.
pub serialize_if : IndexFile → MemoryStream
serialize_if file =
    empty
    ▹ write file.index_id
    ▹ write_u64 file.root_page
    ▹ write_u64 file.last_lsn
    ▹ write_u64 (length file.pages)
    ▹ for_each file.pages (λ page. append_all (serialize_ip page))
    ▹ rewind
