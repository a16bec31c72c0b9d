-- ===== src/Net/Results.antt =====
-- query_result_serializer.cpp: the rows of a result as bytes, for a client.
pub mod Client
pub mod Ignored
use deltabase_c.Prelude.{ℕ, List, Bool, true, length}
use deltabase_c.Stream.{empty, ◌▹◌, for_each, Reader, ◌>>=◌, pure, read_word, read_many}
use deltabase_c.Types.Value.{DataType, to_u64, of_u64, DataToken, DataRow}
use deltabase_c.Net.BigEndian.{write_u64_as, write_string, write_bytes, read_string, read_bytes}

pub record OutputColumn : Type 0 where
  pub name : List ℕ
  pub type : DataType

pub record DataTable : Type 0 where
  pub table_name : List ℕ
  pub output_schema : List OutputColumn
  pub rows : List DataRow

unfoldable pub serialize : DataTable → List ℕ
serialize table =
    (empty
      ▹ write_u64_as (length table.output_schema) true
      ▹ for_each table.output_schema (λ column stream.
        stream ▹ write_string column.name true ▹ write_u64_as (to_u64 column.type) true)
      ▹ write_u64_as (length table.rows) true
      ▹ for_each table.rows (λ data_row stream.
        stream
        ▹ write_u64_as (length data_row.tokens) true
        ▹ for_each data_row.tokens (λ token stream.
          stream ▹ write_u64_as (to_u64 token.type) true ▹ write_bytes token.bytes true))).buffer

-- `read_u64` of the stream: the bytes go to a local of its own, and `out` stays what it was.
unfoldable pub read_u64_as : ℕ → Bool → Reader ℕ
read_u64_as out big_endian = do effective ← read_word 8; pure out

abbrev pub read_column : Reader OutputColumn
read_column = do
  name ← read_string true
  raw_type ← read_u64_as 0 true
  pure (record { name = name; type = of_u64 raw_type })

-- The type of a token is not read, and stays 0.
abbrev pub read_token : Reader DataToken
read_token = do
  token_bytes ← read_bytes true
  pure (record { bytes = token_bytes; type = of_u64 0 })

-- The id and the flags of a row are those of a `DataRow` that has been made.
abbrev pub read_row : DataRow → Reader DataRow
read_row made = do
  token_count ← read_u64_as 0 true
  tokens ← read_many read_token token_count
  pure (record made { tokens = tokens })

-- What is behind the columns.
abbrev pub read_rows : DataRow → List OutputColumn → Reader (List OutputColumn × List DataRow)
read_rows made schema = do
  row_count ← read_u64_as 0 true
  rows ← read_many (read_row made) row_count
  pure (schema, rows)

unfoldable pub deserialize : DataRow → Reader (List OutputColumn × List DataRow)
deserialize made = do
  column_count ← read_u64_as 0 true
  schema ← read_many read_column column_count
  read_rows made schema
