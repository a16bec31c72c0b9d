-- ===== src/Tests/Net.antt =====
-- The protocol at concrete messages and results.
use deltabase_c.Prelude.{◌++◌, ◌≡◌, ◌∷◌, [], refl, ◌<◌, arith, take, replicate, some, length}
use deltabase_c.Stream.{ReadOnlyMemoryStream, open_stream}
use deltabase_c.Types.Value.{integer, string}
use deltabase_c.Tests.Storage.{ones, first_row, seven}
use deltabase_c.Net.Message.{
  NetMessage, pong_message, query_message, type_byte, NetErrorCode, IsMessage,
}
use deltabase_c.Net.Protocol.{encode, parse, protocol_violation_message}
use deltabase_c.Stream.Word.{of_le, le_bytes}
use deltabase_c.Net.BigEndian.{sized}
use deltabase_c.Net.Protocol.RoundTrip.{encode_lem, parse-encode}
use deltabase_c.Net.Protocol.Truncated.{parse-take}
use deltabase_c.Net.Results.{DataTable, serialize, deserialize}
use deltabase_c.Net.Results.Client.{parse_table, int_type, string_type, int_object}
use deltabase_c.Net.Results.Client.Sent.{parse_table-serialize}
use deltabase_c.Net.Results.Ignored.{deserialize-nothing}

abbrev asked : NetMessage
asked = query_message (record { session_id = ones; request_id = 7; query = b'S' ∷ b';' ∷ [] })

abbrev answered : NetMessage
answered =
    pong_message
      (record { session_id = ones; err = NetErrorCode.sql_error; request_id = 7; payload = 1 ∷ [] })

asked-IsMessage : IsMessage asked
asked-IsMessage = (refl, omega arith, omega arith)

answered-IsMessage : IsMessage answered
answered-IsMessage = (refl, omega arith, tt, omega arith)

parse-encode_example : parse (encode answered ++ (9 ∷ [])) ≡ answered
parse-encode_example = parse-encode answered (9 ∷ []) answered-IsMessage

asked_long : 30 < length (encode asked)
unfolding type_byte le_bytes sized
asked_long = rw (encode_lem asked) (omega arith)

parse-take_example : parse (take 30 (encode asked)) ≡ protocol_violation_message
parse-take_example = parse-take asked 30 asked-IsMessage asked_long

abbrev result : DataTable
result = record {
  table_name = [];
  output_schema =
      record { name = b'n' ∷ []; type = integer } ∷ record { name = b'm' ∷ []; type = string } ∷ [];
  rows =
      record { id = 4; flags = 0; tokens = seven ∷ seven ∷ [] }
      ∷ record { id = 5; flags = 0; tokens = seven ∷ [] }
      ∷ [];
}

parse_table-serialize_example :
    (s : ReadOnlyMemoryStream) × (parse_table (λ bytes. bytes) (open_stream (serialize result))
      ≡ some (
        record {
          columns =
              record { name = b'n' ∷ []; type = some int_type }
              ∷ record { name = b'm' ∷ []; type = some string_type }
              ∷ [];
          rows = (int_object 7 ∷ int_object 7 ∷ []) ∷ (int_object 7 ∷ []) ∷ [];
        },
        s,
      ))
unfolding of_le
parse_table-serialize_example =
    parse_table-serialize (λ bytes. bytes) result (omega arith) refl (omega arith)
      ((omega arith, tt), ((omega arith, tt), tt))
      (
        (omega arith, ((omega arith, refl), ((omega arith, refl), tt))),
        ((omega arith, ((omega arith, refl), tt)), tt),
      )

deserialize-nothing_example :
    (s : ReadOnlyMemoryStream) × (deserialize first_row
        (open_stream (replicate 8 1 ++ replicate 8 2 ++ (3 ∷ [])))
      ≡ some (([], []), s))
deserialize-nothing_example =
    deserialize-nothing first_row (replicate 8 1) (replicate 8 2) (3 ∷ []) refl refl
