-- ===== src/Net/Results/Client/Sent.antt =====
-- Deltabase.Data/Internal/Protocol/StdProtocolImpl.cs reads what query_result_serializer.cpp writes.
use deltabase_c.Prelude.{
  sym, ◌-◌, ◌≤◌, ℕ, ◌≡◌, ◌^◌, refl, List, [], ◌∷◌, ◌++◌, true, false, length, map, All, All-map,
  arith, ltb, ◌==◌, flat_map, Option, none, some, append-nil, append_assoc, not,
}
use deltabase_c.Stream.Word.{of_le, le_bytes, IsU64}
use deltabase_c.Stream.{
  ReadOnlyMemoryStream, Reader, ◌>>=◌, pure, read_many, at_end, writing, for_each-at_end, Parses,
  Parses-bind, Parses-pure, Parses-map, Parses-read_word, Parses-read_exactly, open_stream,
}
use deltabase_c.Types.Value.{
  undefined, null, integer, real, char, bool, string, unnamed, DataType, IsDataType, to_u64,
  of_u64-to_u64, to_u64-IsU64, DataToken, DataRow,
}
use deltabase_c.Net.BigEndian.{
  write_bytes, write_string, from_big_endian_u64, to_big_endian_u64, from_big_endian-to_big_endian,
  to_big_endian-IsU64, sized, write_bytes_lem, write_string_lem, write_u64_as,
}
use deltabase_c.Net.Results.{for_each, OutputColumn, DataTable, serialize}
use deltabase_c.Net.Results.Client.{
  ClrType, int_type, double_type, char_type, bool_type, string_type, Object, null_object,
  int_object, double_object, char_object, bool_object, string_object, first_byte, max_array,
  new_array, Column, named_column, Table, text, to_type, has_size, converted, to_object,
  try_read_u64, behind_length, try_read_bytes, try_read_string, try_read_column, try_read_token,
  try_read_row, behind_schema_size, parse_table,
}

-- What an array of the client can hold.
abbrev pub IsSized : List ℕ → Type 0
IsSized bytes = length bytes ≤ max_array

-- The types that the client knows.
abbrev pub HasType : DataType → Type 0
HasType undefined = ⊥
HasType (unnamed n) = ⊥
HasType _ = Unit {0}

-- The bytes of a value, where there is a number of them that its type has.
abbrev pub HasSize : DataType → List ℕ → Type 0
HasSize undefined bytes = ⊥
HasSize null bytes = length bytes ≡ 0
HasSize integer bytes = length bytes ≡ 4
HasSize real bytes = length bytes ≡ 8
HasSize char bytes = length bytes ≡ 1
HasSize bool bytes = length bytes ≡ 1
HasSize string bytes = Unit {0}
HasSize (unnamed n) bytes = ⊥

abbrev pub IsSentColumn : OutputColumn → Type 0
IsSentColumn c = IsSized c.name × HasType c.type

abbrev pub IsSentToken : DataToken → Type 0
IsSentToken t = IsSized t.bytes × HasSize t.type t.bytes

abbrev pub IsSentRow : DataRow → Type 0
IsSentRow r = (length r.tokens ≤ max_array) × All IsSentToken r.tokens

-- The type of the language for a type of the server.
abbrev pub clr_type : DataType → Option ClrType
clr_type integer = some int_type
clr_type real = some double_type
clr_type char = some char_type
clr_type bool = some bool_type
clr_type string = some string_type
clr_type _ = none

-- The object of a value, which has the size of its type.
abbrev pub object : (List ℕ → List ℕ) → DataType → List ℕ → Object
object decode integer bytes = int_object (of_le bytes)
object decode real bytes = double_object bytes
object decode char bytes = char_object (first_byte bytes)
object decode bool bytes = bool_object (not (first_byte bytes == 0))
object decode string bytes = string_object (decode bytes)
object decode _ bytes = null_object

HasType-IsDataType : (type : DataType) → HasType type → IsDataType type
HasType-IsDataType undefined h = tt
HasType-IsDataType null h = tt
HasType-IsDataType integer h = tt
HasType-IsDataType real h = tt
HasType-IsDataType char h = tt
HasType-IsDataType bool h = tt
HasType-IsDataType string h = tt
HasType-IsDataType (unnamed n) h = absurd h

HasSize-HasType : (type : DataType) (bytes : List ℕ) → HasSize type bytes → HasType type
HasSize-HasType undefined bytes h = h
HasSize-HasType null bytes h = tt
HasSize-HasType integer bytes h = tt
HasSize-HasType real bytes h = tt
HasSize-HasType char bytes h = tt
HasSize-HasType bool bytes h = tt
HasSize-HasType string bytes h = tt
HasSize-HasType (unnamed n) bytes h = h

to_type-HasType : (type : DataType) → HasType type → to_type type ≡ some (clr_type type)
unfolding to_type
to_type-HasType undefined h = absurd h
to_type-HasType null h = refl
to_type-HasType integer h = refl
to_type-HasType real h = refl
to_type-HasType char h = refl
to_type-HasType bool h = refl
to_type-HasType string h = refl
to_type-HasType (unnamed n) h = absurd h

to_object-HasSize :
    (decode : List ℕ → List ℕ) (type : DataType) (bytes : List ℕ)
    → HasSize type bytes
    → to_object decode type bytes ≡ some (object decode type bytes)
unfolding to_object has_size converted
to_object-HasSize decode undefined bytes h = absurd h
to_object-HasSize decode null bytes h = rw h refl
to_object-HasSize decode integer bytes h = rw h refl
to_object-HasSize decode real bytes h = rw h refl
to_object-HasSize decode char bytes h = rw h refl
to_object-HasSize decode bool bytes h = rw h refl
to_object-HasSize decode string bytes h = refl
to_object-HasSize decode (unnamed n) bytes h = absurd h

u64_bytes : ℕ → List ℕ
u64_bytes v = le_bytes 8 (to_big_endian_u64 v)

column_bytes : OutputColumn → List ℕ
unfolding u64_bytes
column_bytes c = sized c.name ++ u64_bytes (to_u64 c.type)

token_bytes : DataToken → List ℕ
unfolding u64_bytes
token_bytes t = u64_bytes (to_u64 t.type) ++ sized t.bytes

row_bytes : DataRow → List ℕ
unfolding u64_bytes token_bytes
row_bytes r = u64_bytes (length r.tokens) ++ flat_map token_bytes r.tokens

write_u64_as_lem :
    (v : ℕ) (bs : List ℕ) → write_u64_as v true (at_end bs) ≡ at_end (bs ++ u64_bytes v)
unfolding u64_bytes write_u64_as
write_u64_as_lem v bs = simp writing

ruleset sending = (writing, write_u64_as_lem, write_string_lem, write_bytes_lem, append_assoc)

serialize_lem :
    (t : DataTable)
    → serialize t
      ≡ u64_bytes (length t.output_schema)
        ++ (flat_map column_bytes t.output_schema
            ++ (u64_bytes (length t.rows) ++ flat_map row_bytes t.rows))
unfolding serialize column_bytes row_bytes token_bytes
serialize_lem t =
    let columns =
      for_each-at_end column_bytes
        (λ column stream.
          write_u64_as (to_u64 column.type) true (write_string column.name true stream))
        (λ c bs. simp sending) t.output_schema in
    let tokens =
      for_each-at_end token_bytes
        (λ token stream.
          write_bytes token.bytes true (write_u64_as (to_u64 token.type) true stream))
        (λ c bs. simp sending) in
    let rows =
      for_each-at_end row_bytes
        (λ row stream.
          for_each row.tokens
            (λ token stream.
              write_bytes token.bytes true (write_u64_as (to_u64 token.type) true stream))
            (write_u64_as (length row.tokens) true stream))
        (λ r bs. simp (sending, tokens)) t.rows in
    simp (serialize, sending, columns, rows)

Parses-try_read_u64 : (v : ℕ) → IsU64 v → Parses try_read_u64 (u64_bytes v) v
unfolding try_read_u64 u64_bytes
Parses-try_read_u64 v h = rw (from_big_endian-to_big_endian v h) at (
    Parses-map from_big_endian_u64
      (Parses-read_word 8 (to_big_endian_u64 v) (to_big_endian-IsU64 v)))

Parses-try_read_bytes : (bytes : List ℕ) → IsSized bytes → Parses try_read_bytes (sized bytes) bytes
unfolding try_read_bytes sized u64_bytes
Parses-try_read_bytes bytes h =
    let fine : ltb (2 ^ 31 - 1) (length bytes) ≡ false = ground arith in
    Parses-bind behind_length (Parses-try_read_u64 (length bytes) (omega (arith, h)))
      (rw fine (Parses-read_exactly (length bytes) bytes refl))

Parses-new_array : (count : ℕ) → count ≤ max_array → Parses (new_array count) [] tt
Parses-new_array count h =
    let fine : ltb max_array count ≡ false = ground arith in rw fine (Parses-pure tt)

-- A last step that reads nothing.
Parses-last :
    {A : Type 0} {B : Type 0} {m : Reader A} (f : A → Reader B) {bytes : List ℕ} {a : A} {b : B}
    → Parses m bytes a
    → Parses (f a) [] b
    → Parses (m >>= f) bytes b
Parses-last f {bytes} p q = rw (append-nil bytes) at (Parses-bind f p q)

-- A count, an array for as many, and what follows.
Parses-counted {ℓ} :
    {A : Type ℓ} (m : ℕ → Reader A) {bytes : List ℕ} {a : A} (count : ℕ)
    → count ≤ max_array
    → Parses (m count) bytes a
    → Parses (do n ← try_read_u64; _ ← new_array n; m n) (u64_bytes count ++ bytes) a
Parses-counted m count h p =
    Parses-bind _ (Parses-try_read_u64 count (omega (arith, h)))
      (Parses-bind _ (Parses-new_array count h) p)

-- `read_many` where what is read is a view of what was written.
Parses-views :
    {A : Type 0} {B : Type 0} (m : Reader B) (bytes : A → List ℕ) (view : A → B) (xs : List A)
    → All (λ x. Parses m (bytes x) (view x)) xs
    → Parses (read_many m (length xs)) (flat_map bytes xs) (map view xs)
unfolding read_many
Parses-views m bytes view [] h = Parses-pure []
Parses-views m bytes view (x ∷ xs) h =
    Parses-bind (λ y. read_many m (length xs) >>= λ ys. pure (y ∷ ys)) h.0
      (Parses-map (λ ys. view x ∷ ys) (Parses-views m bytes view xs h.1))

module _ (decode : List ℕ → List ℕ) where
  abbrev pub column_of : OutputColumn → Column
  column_of c = record { name = text decode c.name; type = clr_type c.type }

  abbrev pub object_of : DataToken → Object
  object_of t = object decode t.type t.bytes

  abbrev pub objects_of : DataRow → List Object
  objects_of r = map object_of r.tokens

  abbrev table : List Column → List (List Object) → Table
  table columns rows = record { columns = columns; rows = rows }

  Parses-try_read_column :
      (c : OutputColumn)
      → IsSentColumn c
      → Parses (try_read_column decode) (column_bytes c) (column_of c)
  unfolding try_read_column try_read_string column_bytes
  Parses-try_read_column c h =
      let named = HasType-IsDataType c.type h.1 in
      Parses-bind _ (Parses-map (text decode) (Parses-try_read_bytes c.name h.0)) (
        Parses-last _ (Parses-try_read_u64 (to_u64 c.type) (to_u64-IsU64 c.type named)) (
          rw (of_u64-to_u64 c.type named, to_type-HasType c.type h.1)
            (Parses-last (λ type. pure (named_column decode (text decode c.name) type))
              (Parses-pure (clr_type c.type)) (Parses-pure (column_of c)))))

  Parses-try_read_token :
      (t : DataToken) → IsSentToken t → Parses (try_read_token decode) (token_bytes t) (object_of t)
  unfolding try_read_token token_bytes
  Parses-try_read_token t h =
      let named = HasType-IsDataType t.type (HasSize-HasType t.type t.bytes h.1) in
      Parses-bind _ (Parses-try_read_u64 (to_u64 t.type) (to_u64-IsU64 t.type named)) (
        rw (of_u64-to_u64 t.type named) (
          Parses-last _ (Parses-try_read_bytes t.bytes h.0)
            (rw (to_object-HasSize decode t.type t.bytes h.1) (Parses-pure (object_of t)))))

  Parses-try_read_row :
      (r : DataRow) → IsSentRow r → Parses (try_read_row decode) (row_bytes r) (objects_of r)
  unfolding try_read_row row_bytes
  Parses-try_read_row r h =
      Parses-counted (read_many (try_read_token decode)) (length r.tokens) h.0 (
        Parses-views (try_read_token decode) token_bytes object_of r.tokens (
          All-map IsSentToken (λ t. Parses (try_read_token decode) (token_bytes t) (object_of t))
            Parses-try_read_token r.tokens h.1))

  Parses-parse_table :
      (t : DataTable)
      → length t.output_schema ≤ max_array
      → ((length t.output_schema == 0) ≡ false)
      → length t.rows ≤ max_array
      → All IsSentColumn t.output_schema
      → All IsSentRow t.rows
      → Parses
          (parse_table decode)
          (serialize t)
          (record { columns = map column_of t.output_schema; rows = map objects_of t.rows })
  unfolding parse_table
  Parses-parse_table t a z b c r =
      let columns = Parses-views (try_read_column decode) column_bytes column_of t.output_schema (
        All-map IsSentColumn (λ x. Parses (try_read_column decode) (column_bytes x) (column_of x))
          Parses-try_read_column t.output_schema c) in
      let rows = Parses-views (try_read_row decode) row_bytes objects_of t.rows (
        All-map IsSentRow (λ x. Parses (try_read_row decode) (row_bytes x) (objects_of x))
          Parses-try_read_row t.rows r) in
      rw (serialize_lem t) (
        Parses-bind (behind_schema_size decode)
          (Parses-try_read_u64 (length t.output_schema) (omega (arith, a)))
          (rw z (
            Parses-bind _ (Parses-new_array (length t.output_schema) a) (
              Parses-bind _ columns (
                Parses-counted
                  (λ count. do
                    rows ← read_many (try_read_row decode) count
                    pure (table (map column_of t.output_schema) rows))
                  (length t.rows) b (Parses-map (table (map column_of t.output_schema)) rows))))))

  -- A client reads a result that has columns from what the server sends: each column with its name,
  -- decoded, and its type, and each value of each row, in order, as an object of its type. The client
  -- knows the types of the columns and of the values, every value has the size of its type, and an
  -- array of the client can hold the columns, the rows, the values of a row, every name and the bytes
  -- of every value.
  pub parse_table-serialize :
      (t : DataTable)
      → length t.output_schema ≤ max_array
      → ((length t.output_schema == 0) ≡ false)
      → length t.rows ≤ max_array
      → All IsSentColumn t.output_schema
      → All IsSentRow t.rows
      → (s : ReadOnlyMemoryStream) × (parse_table decode (open_stream (serialize t))
          ≡ some
              (record { columns = map column_of t.output_schema; rows = map objects_of t.rows }, s))
  unfolding open_stream
  parse_table-serialize t a z b c r =
      let bytes = serialize t in
      let p = Parses-parse_table t a z b c r in
      (_, p.at (open_stream bytes) [] (omega arith) (sym (append-nil bytes)))
