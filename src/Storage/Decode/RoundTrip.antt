-- ===== src/Storage/Decode/RoundTrip.antt =====
-- What std_storage_serializer.cpp writes, it reads back, wherever the bytes stand in a stream.

use deltabase_c.Prelude.{
  append-nil, replicate, ℕ, refl, List, [], ◌∷◌, Bool, true, false, length, flat_map, All, arith,
  not, ◌==◌,
}
use deltabase_c.Stream.Word.{le_bytes, of_le, of_le-le_bytes, length-le_bytes, IsU64, IsU32}
use deltabase_c.Stream.{
  MemoryStream, Reader, ◌>>=◌, pure, read_exactly, read_over, read_word, read_many, Parses,
  Parses-bind, Parses-pure, Parses-map, Parses-read_exactly, Parses-read_over, Parses-read_word,
  Parses-read_many, buffer-at_start,
}
use deltabase_c.Types.Value.{
  Uuid, IsUuid, null_uuid, DataType, null, IsDataType, of_u64, to_u64, of_u64-to_u64, to_u64-IsU64,
  DataToken, IsToken, NoBytes, DataRow, IsRow,
}
use deltabase_c.Types.Meta.{
  MetaSchema, MetaColumn, MetaIndex, MetaTable, IsSchema, IsColumn, IsIndex, IsTable,
}
use deltabase_c.Types.Page.{DataPage, IsPage}
use deltabase_c.Storage.Encode.{
  serialize_dr, serialize_dp, serialize_ms, serialize_mi, serialize_mt, bool_byte,
}
use deltabase_c.Storage.Encode.Layout.{
  serialize_dr_lem, serialize_mi_lem, serialize_dp_lem, serialize_mt_lem, serialize_ms_lem,
  str_bytes, ms_bytes, mc_bytes, mi_bytes, mt_bytes, bytes_unless_null, dt_bytes, dr_bytes,
  dp_bytes,
}
use deltabase_c.Storage.Decode.{
  read_u64, read_u32, read_uuid, read_bool, read_type, read_str, deserialize_ms, deserialize_mc,
  deserialize_mi, deserialize_mt, read_bytes_unless_null, deserialize_dt, deserialize_dr,
  deserialize_dp, read_u64_over,
}

pub Parses-read_u64 : (v : ℕ) → IsU64 v → Parses read_u64 (le_bytes 8 v) v
Parses-read_u64 v h = Parses-read_word 8 v h

pub Parses-read_u32 : (v : ℕ) → IsU32 v → Parses read_u32 (le_bytes 4 v) v
Parses-read_u32 v h = Parses-read_word 4 v h

pub Parses-read_uuid : (u : Uuid) → IsUuid u → Parses read_uuid u u
Parses-read_uuid u h = Parses-read_exactly 16 u h

pub uuid_over : (u : Uuid) → IsUuid u → Parses (read_over 16 null_uuid) u u
uuid_over u h = Parses-read_over 16 null_uuid u h refl

pub u64_over : (v : ℕ) → IsU64 v → Parses read_u64_over (le_bytes 8 v) v
u64_over v h = rw (of_le-le_bytes 8 v h) at (
    Parses-map of_le (Parses-read_over 8 (replicate 8 0) (le_bytes 8 v) (length-le_bytes 8 v) refl))

pub Parses-read_bool : (b : Bool) → Parses read_bool (le_bytes 1 (bool_byte b)) b
unfolding read_bool bool_byte
Parses-read_bool true = Parses-map (λ b. not (b == 0)) (Parses-read_word 1 1 (omega arith))
Parses-read_bool false = Parses-map (λ b. not (b == 0)) (Parses-read_word 1 0 (omega arith))

pub Parses-read_type : (t : DataType) → IsDataType t → Parses read_type (le_bytes 8 (to_u64 t)) t
unfolding read_type
Parses-read_type t h =
    rw (of_u64-to_u64 t h) at (Parses-map of_u64 (Parses-read_u64 (to_u64 t) (to_u64-IsU64 t h)))

pub Parses-read_str : (s : List ℕ) → IsU64 (length s) → Parses read_str (str_bytes s) s
unfolding read_str str_bytes
Parses-read_str s h =
    rw append-nil
      (Parses-bind _ (Parses-read_u64 (length s) h) (Parses-read_exactly (length s) s refl))

pub ruleset parsing = (
  Parses-bind, Parses-pure, Parses-read_u64, Parses-read_u32, Parses-read_uuid, Parses-read_bool,
  Parses-read_type, Parses-read_str, uuid_over, u64_over,
)

pub Parses-deserialize_ms : (s : MetaSchema) → IsSchema s → Parses deserialize_ms (ms_bytes s) s
unfolding deserialize_ms ms_bytes
Parses-deserialize_ms s h = search parsing depth 9

pub Parses-deserialize_mc : (c : MetaColumn) → IsColumn c → Parses deserialize_mc (mc_bytes c) c
unfolding deserialize_mc mc_bytes
Parses-deserialize_mc c h = search parsing depth 9

pub Parses-deserialize_mi : (i : MetaIndex) → IsIndex i → Parses deserialize_mi (mi_bytes i) i
unfolding deserialize_mi mi_bytes
Parses-deserialize_mi i h = Parses-bind _ (Parses-read_uuid i.id h.id) (
    Parses-bind _ (Parses-read_uuid i.table_id h.table_id) (
      Parses-bind _ (Parses-read_uuid i.column_id h.column_id) (
        Parses-bind _ (Parses-read_uuid i.root_page_id h.root_page_id) (
          Parses-bind _ (Parses-read_str i.name h.name) (
            Parses-bind _ (Parses-read_bool i.is_unique)
              (Parses-bind _ (Parses-read_type i.key_type h.key_type) (Parses-pure _)))))))

module _ {ℓ} {A : Type ℓ} where
  -- A loop that reads as many elements as were written.
  pub Parses-loop {κ} :
      {P : A → Type κ} (m : Reader A) (enc : A → List ℕ)
      → ((x : A) → P x → Parses m (enc x) x)
      → (xs : List A) → All P xs
      → Parses (read_many m (length xs)) (flat_map enc xs) xs
  Parses-loop {P} m enc h xs hs = Parses-read_many m enc xs (go xs hs)
    where
      go : (ys : List A) → All P ys → All (λ x. Parses m (enc x) x) ys
      go [] hy = tt
      go (y ∷ ys) hy = (h y hy.0, go ys hy.1)

columns_loop :
    (cs : List MetaColumn)
    → All IsColumn cs
    → Parses (read_many deserialize_mc (length cs)) (flat_map mc_bytes cs) cs
columns_loop = Parses-loop deserialize_mc mc_bytes Parses-deserialize_mc

indexes_loop :
    (is : List MetaIndex)
    → All IsIndex is
    → Parses (read_many deserialize_mi (length is)) (flat_map mi_bytes is) is
indexes_loop = Parses-loop deserialize_mi mi_bytes Parses-deserialize_mi

pub Parses-deserialize_mt : (t : MetaTable) → IsTable t → Parses deserialize_mt (mt_bytes t) t
unfolding deserialize_mt mt_bytes
Parses-deserialize_mt t h = search (parsing, columns_loop, indexes_loop) depth 14

bytes_part :
    (t : DataType) (bs : List ℕ)
    → NoBytes t bs
    → IsU64 (length bs)
    → Parses (read_bytes_unless_null t) (bytes_unless_null t bs) bs
unfolding read_bytes_unless_null bytes_unless_null read_str str_bytes
bytes_part null bs e h = rw e (Parses-pure [])
bytes_part _ bs e h = Parses-read_str bs h

pub Parses-deserialize_dt : (t : DataToken) → IsToken t → Parses deserialize_dt (dt_bytes t) t
unfolding deserialize_dt dt_bytes
Parses-deserialize_dt t h =
    Parses-bind _ (Parses-read_type t.type h.named)
      (Parses-bind _ (bytes_part t.type t.bytes h.nothing h.sized) (Parses-pure _))

pub tokens_loop :
    (ts : List DataToken)
    → All IsToken ts
    → Parses (read_many deserialize_dt (length ts)) (flat_map dt_bytes ts) ts
tokens_loop = Parses-loop deserialize_dt dt_bytes Parses-deserialize_dt

pub Parses-deserialize_dr : (r : DataRow) → IsRow r → Parses deserialize_dr (dr_bytes r) r
unfolding deserialize_dr dr_bytes
Parses-deserialize_dr r h = search (parsing, tokens_loop) depth 9

rows_loop :
    (rs : List DataRow)
    → All IsRow rs
    → Parses (read_many deserialize_dr (length rs)) (flat_map dr_bytes rs) rs
rows_loop = Parses-loop deserialize_dr dr_bytes Parses-deserialize_dr

-- The page that comes back: its row count is that of the rows, and its size and path are `out`'s.
abbrev pub stored : DataPage → DataPage → DataPage
stored out p = record p { rows_count = length p.rows; size = out.size; path = out.path }

pub Parses-deserialize_dp :
    (out p : DataPage) → IsPage p → Parses (deserialize_dp out) (dp_bytes p) (stored out p)
unfolding deserialize_dp dp_bytes
Parses-deserialize_dp out p h = search (parsing, rows_loop) depth 12

-- A schema that is written is read back, wherever its bytes stand.
pub deserialize-serialize_ms :
    (s : MetaSchema) → IsSchema s → Parses deserialize_ms (serialize_ms s).buffer s
deserialize-serialize_ms s h =
    rw (serialize_ms_lem s, buffer-at_start (ms_bytes s)) (Parses-deserialize_ms s h)

-- A table's metadata, with its columns and indexes, is read back as it was written, wherever its
-- bytes stand in a stream, if its identifiers have 16 bytes and its numbers and lengths fit their
-- C++ types.
pub deserialize-serialize_mt :
    (t : MetaTable) → IsTable t → Parses deserialize_mt (serialize_mt t).buffer t
deserialize-serialize_mt t h =
    rw (serialize_mt_lem t, buffer-at_start (mt_bytes t)) (Parses-deserialize_mt t h)

pub deserialize-serialize_mi :
    (i : MetaIndex) → IsIndex i → Parses deserialize_mi (serialize_mi i).buffer i
deserialize-serialize_mi i h =
    rw (serialize_mi_lem i, buffer-at_start (mi_bytes i)) (Parses-deserialize_mi i h)

pub deserialize-serialize_dr :
    (r : DataRow) → IsRow r → Parses deserialize_dr (serialize_dr r).buffer r
deserialize-serialize_dr r h =
    rw (serialize_dr_lem r, buffer-at_start (dr_bytes r)) (Parses-deserialize_dr r h)

-- A data page in range that is written is read back into `out` with every row, but for three
-- fields: the row count is that of the rows, and the size and the path are those `out` had.
pub deserialize-serialize_dp :
    (out p : DataPage)
    → IsPage p
    → Parses (deserialize_dp out) (serialize_dp p).buffer (stored out p)
deserialize-serialize_dp out p h =
    rw (serialize_dp_lem p, buffer-at_start (dp_bytes p)) (Parses-deserialize_dp out p h)
