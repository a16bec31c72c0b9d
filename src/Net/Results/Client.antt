-- ===== src/Net/Results/Client.antt =====
-- Deltabase.Data/Internal/Protocol/StdProtocolImpl.cs and Internal/Utils/DataTypeMapper.cs: what a client
-- of the other language reads from the rows that the server sends. `fail` is an exception or the answer
-- `false`, which `ParseTable` answers by one. How UTF-8 is decoded is a parameter.
pub mod Sent
use deltabase_c.Prelude.{
  not, ◌-◌, ◌≤◌, ◌≢◌, ℕ, ◌≡◌, ◌<◌, ◌^◌, refl, ap, List, [], ◌∷◌, ◌++◌, Bool, true, false, length,
  map, All, All-map, arith, ltb, ◌==◌, if◌then◌else◌, flat_map, Option, none, some, append-nil,
  append_assoc,
}
use deltabase_c.Stream.Word.{of_le, le_bytes, IsU64}
use deltabase_c.Stream.{
  ReadOnlyMemoryStream, Reader, ◌>>=◌, pure, fail, read_word, read_exactly, read_many, remaining,
  at_end, writing, for_each-at_end, Parses, Parses-bind, Parses-pure, Parses-map, Parses-read_word,
  Parses-read_exactly, Parses-read_many, open_stream, write,
}
use deltabase_c.Types.Value.{
  undefined, null, integer, real, char, bool, string, unnamed, DataType, IsDataType, to_u64, of_u64,
  of_u64-to_u64, to_u64-IsU64, DataToken, DataRow,
}
use deltabase_c.Storage.Encode.Layout.{layout}
use deltabase_c.Net.BigEndian.{
  write_bytes, write_string, from_big_endian_u64, to_big_endian_u64, from_big_endian-to_big_endian,
  to_big_endian-IsU64, sized, write_bytes_lem, write_string_lem, write_u64_as,
}
use deltabase_c.Net.Results.{for_each, OutputColumn, DataTable, serialize}

-- `Type` of the language, where it is no null.
pub data ClrType : Type 0 where
  int_type double_type char_type bool_type string_type : ClrType

-- `ToType`, which throws for other types.
unfoldable pub to_type : DataType → Option (Option ClrType)
to_type undefined = none
to_type null = some none
to_type integer = some (some int_type)
to_type real = some (some double_type)
to_type char = some (some char_type)
to_type bool = some (some bool_type)
to_type string = some (some string_type)
to_type (unnamed n) = none

-- An `int` is its 32 bits, a `double` its bytes, a string its characters.
pub data Object : Type 0 where
  null_object : Object
  int_object : ℕ → Object
  double_object : List ℕ → Object
  char_object : ℕ → Object
  bool_object : Bool → Object
  string_object : List ℕ → Object

-- What `ToObject` looks at first: `IsFixedSize` and `GetDataTypeSize`, which throw for other types.
unfoldable pub has_size : DataType → List ℕ → Bool
has_size undefined bytes = false
has_size null bytes = length bytes == 0
has_size integer bytes = length bytes == 4
has_size real bytes = length bytes == 8
has_size char bytes = length bytes == 1
has_size bool bytes = length bytes == 1
has_size string bytes = true
has_size (unnamed n) bytes = false

-- `bytes[0]`, where there is one.
abbrev pub first_byte : List ℕ → ℕ
first_byte [] = 0
first_byte (b ∷ bytes) = b

-- The longest array of the language.
abbrev pub max_array : ℕ
max_array = 2147483591

-- `new T[count]`
abbrev pub new_array : ℕ → Reader (Unit {0})
new_array count = if ltb max_array count then fail else pure tt

pub record Column : Type 0 where
  pub name : List ℕ
  pub type : Option ClrType

pub record Table : Type 0 where
  pub columns : List Column
  pub rows : List (List Object)

unfoldable pub try_read_u64 : Reader ℕ
try_read_u64 = do bytes ← read_word 8; pure (from_big_endian_u64 bytes)

-- A length above `int.MaxValue` is refused.
abbrev pub behind_length : ℕ → Reader (List ℕ)
behind_length length = if ltb (2 ^ 31 - 1) length then fail else read_exactly length

unfoldable pub try_read_bytes : Reader (List ℕ)
try_read_bytes = do length ← try_read_u64; behind_length length

abbrev pub or_fail {ℓ} : {A : Type ℓ} → Option A → Reader A
or_fail none = fail
or_fail (some a) = pure a

module _ (decode : List ℕ → List ℕ) where
  -- `payloadLength == 0 ? string.Empty : Encoding.UTF8.GetString(payload)`
  abbrev pub text : List ℕ → List ℕ
  text [] = []
  text (b ∷ bytes) = decode (b ∷ bytes)

  unfoldable pub try_read_string : Reader (List ℕ)
  try_read_string = do payload ← try_read_bytes; pure (text payload)

  -- The second half of `ToObject`.
  unfoldable pub converted : DataType → List ℕ → Option Object
  converted undefined bytes = none
  converted null bytes = some null_object
  converted integer bytes = some (int_object (of_le bytes))
  converted real bytes = some (double_object bytes)
  converted char bytes = some (char_object (first_byte bytes))
  converted bool bytes = some (bool_object (not (first_byte bytes == 0)))
  converted string bytes = some (string_object (decode bytes))
  converted (unnamed n) bytes = none

  unfoldable pub to_object : DataType → List ℕ → Option Object
  to_object type bytes = if has_size type bytes then converted type bytes else none

  abbrev pub named_column : List ℕ → Option ClrType → Column
  named_column name type = record { name = name; type = type }

  unfoldable pub try_read_column : Reader Column
  try_read_column = do
    name ← try_read_string
    raw_type ← try_read_u64
    type ← or_fail (to_type (of_u64 raw_type))
    pure (named_column name type)

  unfoldable pub try_read_token : Reader Object
  try_read_token = do
    raw_type ← try_read_u64
    bytes ← try_read_bytes
    or_fail (to_object (of_u64 raw_type) bytes)

  -- The values behind their number.
  abbrev pub read_values : ℕ → Reader (List Object)
  read_values tokens_count = do _ ← new_array tokens_count; read_many try_read_token tokens_count

  unfoldable pub try_read_row : Reader (List Object)
  try_read_row = do tokens_count ← try_read_u64; read_values tokens_count

  abbrev pub read_rows : List Column → ℕ → Reader Table
  read_rows columns rows_count = do
    _ ← new_array rows_count
    rows ← read_many try_read_row rows_count
    pure (record { columns = columns; rows = rows })

  abbrev pub read_columns : ℕ → Reader Table
  read_columns schema_size = do
    _ ← new_array schema_size
    columns ← read_many try_read_column schema_size
    rows_count ← try_read_u64
    read_rows columns rows_count

  -- The rows are not looked at where there is no column: the arrays of the table are null then, which
  -- stands as no column and no row.
  abbrev pub behind_schema_size : ℕ → Reader Table
  behind_schema_size schema_size =
      if schema_size == 0
      then pure (record { columns = []; rows = [] })
      else read_columns schema_size

  unfoldable pub parse_table : Reader Table
  parse_table = do schema_size ← try_read_u64; behind_schema_size schema_size
