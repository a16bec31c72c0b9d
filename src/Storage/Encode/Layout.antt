-- ===== src/Storage/Encode/Layout.antt =====
-- The file formats, written as lists of fields, and that the serializers of std_storage_serializer.cpp
-- produce them.
use deltabase_c.Prelude.{ℕ, ◌≡◌, List, [], ◌∷◌, ◌++◌, length, flat_map, append-nil}
use deltabase_c.Stream.Word.{le_bytes}
use deltabase_c.Stream.{write, for_each, at_end, at_start, writing, for_each-at_end, append-at_end}
use deltabase_c.Types.Value.{DataType, null, to_u64, DataToken, DataRow}
use deltabase_c.Types.Meta.{MetaSchema, MetaColumn, MetaIndex, MetaTable}
use deltabase_c.Types.Page.{DataPage}
use deltabase_c.Storage.Encode.{
  append_all, write_str, serialize_ms, serialize_mc, serialize_mi, serialize_mt,
  write_bytes_unless_null, serialize_dt, serialize_dr, serialize_dp, bool_byte,
}

-- The fields one behind the other.
abbrev pub layout : List (List ℕ) → List ℕ
layout [] = []
layout (x ∷ xs) = x ++ layout xs

unfoldable pub str_bytes : List ℕ → List ℕ
str_bytes str = layout (le_bytes 8 (length str) ∷ str ∷ [])

unfoldable pub ms_bytes : MetaSchema → List ℕ
ms_bytes s = layout (s.id ∷ str_bytes s.name ∷ str_bytes s.db_name ∷ [])

unfoldable pub mc_bytes : MetaColumn → List ℕ
mc_bytes c =
    layout
      (c.id ∷ c.table_id ∷ str_bytes c.name ∷ le_bytes 8 (to_u64 c.type) ∷ le_bytes 4 c.flags ∷ [])

unfoldable pub mi_bytes : MetaIndex → List ℕ
mi_bytes i = layout (
    i.id
    ∷ i.table_id
    ∷ i.column_id
    ∷ i.root_page_id
    ∷ str_bytes i.name
    ∷ le_bytes 1 (bool_byte i.is_unique)
    ∷ le_bytes 8 (to_u64 i.key_type)
    ∷ [])

unfoldable pub mt_bytes : MetaTable → List ℕ
mt_bytes t = layout (
    t.id
    ∷ t.schema_id
    ∷ str_bytes t.name
    ∷ le_bytes 8 t.total_rows
    ∷ le_bytes 8 t.live_rows
    ∷ le_bytes 8 (length t.columns)
    ∷ flat_map mc_bytes t.columns
    ∷ le_bytes 8 t.last_rid
    ∷ le_bytes 8 (length t.indexes)
    ∷ flat_map mi_bytes t.indexes
    ∷ [])

unfoldable pub bytes_unless_null : DataType → List ℕ → List ℕ
bytes_unless_null null bytes = []
bytes_unless_null _ bytes = layout (le_bytes 8 (length bytes) ∷ bytes ∷ [])

unfoldable pub dt_bytes : DataToken → List ℕ
dt_bytes t = layout (le_bytes 8 (to_u64 t.type) ∷ bytes_unless_null t.type t.bytes ∷ [])

unfoldable pub dr_bytes : DataRow → List ℕ
dr_bytes r = layout (
    le_bytes 8 r.id
    ∷ le_bytes 4 r.flags
    ∷ le_bytes 8 (length r.tokens)
    ∷ flat_map dt_bytes r.tokens
    ∷ [])

unfoldable pub dp_bytes : DataPage → List ℕ
dp_bytes p = layout (
    p.id
    ∷ p.next
    ∷ p.table_id
    ∷ le_bytes 8 p.min_rid
    ∷ le_bytes 8 p.max_rid
    ∷ le_bytes 8 (length p.rows)
    ∷ le_bytes 8 p.last_lsn
    ∷ flat_map dr_bytes p.rows
    ∷ [])

write_str-at_end : (str bs : List ℕ) → write_str str (at_end bs) ≡ at_end (bs ++ str_bytes str)
unfolding write_str str_bytes
write_str-at_end str bs = simp (writing, append-nil)

ruleset fields = (writing, append-nil, write_str-at_end)

pub serialize_ms_lem : (s : MetaSchema) → serialize_ms s ≡ at_start (ms_bytes s)
unfolding serialize_ms ms_bytes
serialize_ms_lem s = simp fields

pub serialize_mc_lem : (c : MetaColumn) → serialize_mc c ≡ at_start (mc_bytes c)
unfolding serialize_mc mc_bytes
serialize_mc_lem c = simp fields

pub serialize_mi_lem : (i : MetaIndex) → serialize_mi i ≡ at_start (mi_bytes i)
unfolding serialize_mi mi_bytes
serialize_mi_lem i = simp fields

write_columns :
    (cs : List MetaColumn) (bs : List ℕ)
    → for_each cs (λ column. write (serialize_mc column).buffer) (at_end bs)
      ≡ at_end (bs ++ flat_map mc_bytes cs)
write_columns =
    for_each-at_end mc_bytes (λ column. write (serialize_mc column).buffer)
      (λ c bs. simp (fields, serialize_mc_lem))

write_indexes :
    (is : List MetaIndex) (bs : List ℕ)
    → for_each is (λ index. write (serialize_mi index).buffer) (at_end bs)
      ≡ at_end (bs ++ flat_map mi_bytes is)
write_indexes =
    for_each-at_end mi_bytes (λ index. write (serialize_mi index).buffer)
      (λ i bs. simp (fields, serialize_mi_lem))

pub serialize_mt_lem : (t : MetaTable) → serialize_mt t ≡ at_start (mt_bytes t)
unfolding serialize_mt mt_bytes
serialize_mt_lem t = simp (fields, write_columns, write_indexes)

write_bytes_unless_null-at_end :
    (t : DataType) (bytes bs : List ℕ)
    → write_bytes_unless_null t bytes (at_end bs) ≡ at_end (bs ++ bytes_unless_null t bytes)
unfolding write_bytes_unless_null bytes_unless_null
write_bytes_unless_null-at_end null bytes bs = simp fields
write_bytes_unless_null-at_end _ bytes bs = simp fields

pub serialize_dt_lem : (t : DataToken) → serialize_dt t ≡ at_start (dt_bytes t)
unfolding serialize_dt dt_bytes
serialize_dt_lem t = simp (fields, write_bytes_unless_null-at_end)

pub write_tokens :
    (ts : List DataToken) (bs : List ℕ)
    → for_each ts (λ token. append_all (serialize_dt token)) (at_end bs)
      ≡ at_end (bs ++ flat_map dt_bytes ts)
write_tokens =
    for_each-at_end dt_bytes (λ token. append_all (serialize_dt token))
      (λ t bs. rw (serialize_dt_lem t) (append-at_end bs (dt_bytes t)))

pub serialize_dr_lem : (r : DataRow) → serialize_dr r ≡ at_start (dr_bytes r)
unfolding serialize_dr dr_bytes
serialize_dr_lem r = simp (fields, write_tokens)

write_rows :
    (rs : List DataRow) (bs : List ℕ)
    → for_each rs (λ row. append_all (serialize_dr row)) (at_end bs)
      ≡ at_end (bs ++ flat_map dr_bytes rs)
write_rows =
    for_each-at_end dr_bytes (λ row. append_all (serialize_dr row))
      (λ r bs. rw (serialize_dr_lem r) (append-at_end bs (dr_bytes r)))

pub serialize_dp_lem : (p : DataPage) → serialize_dp p ≡ at_start (dp_bytes p)
unfolding serialize_dp dp_bytes
serialize_dp_lem p = simp (fields, write_rows)
