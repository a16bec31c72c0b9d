-- ===== src/Net/Protocol.antt =====
-- std_protocol.cpp: the messages as bytes, and back.
pub mod RoundTrip
pub mod Truncated
use deltabase_c.Prelude.{true, ℕ, List, Option, none, some}
use deltabase_c.Stream.Word.{le_bytes}
use deltabase_c.Stream.{
  MemoryStream, empty, write, ◌▹◌, ReadOnlyMemoryStream, open_stream, Reader, ◌>>=◌, pure, fail,
  read_exactly, read_word,
}
use deltabase_c.Types.Value.{null_uuid}
use deltabase_c.Net.BigEndian.{write_string, write_bytes, read_string, read_bytes}
use deltabase_c.Net.Message.{
  NetMessage, ping_message, pong_message, query_message, create_db_message, attach_db_message,
  cancel_stream_message, close_message, PingNetMessage, PongNetMessage, QueryNetMessage,
  CreateDbNetMessage, AttachDbNetMessage, CancelStreamMessage, CloseNetMessage, NetMessageType,
  type_byte, type_of, error_code, error_of,
}

abbrev pub write_message_type : NetMessageType → MemoryStream → MemoryStream
write_message_type type = write (le_bytes 1 (type_byte type))

unfoldable pub encode_ping : PingNetMessage → List ℕ
encode_ping msg =
    (empty ▹ write_message_type NetMessageType.ping ▹ write (le_bytes 4 msg.request_id)).buffer

unfoldable pub encode_pong : PongNetMessage → List ℕ
encode_pong msg =
    (empty
      ▹ write_message_type NetMessageType.pong
      ▹ write msg.session_id
      ▹ write (le_bytes 4 msg.request_id)
      ▹ write (le_bytes 1 (error_code msg.err))
      ▹ write_bytes msg.payload true).buffer

unfoldable pub encode_query : QueryNetMessage → List ℕ
encode_query msg =
    (empty
      ▹ write_message_type NetMessageType.query
      ▹ write msg.session_id
      ▹ write (le_bytes 4 msg.request_id)
      ▹ write_string msg.query true).buffer

unfoldable pub encode_create_db : CreateDbNetMessage → List ℕ
encode_create_db msg =
    (empty
      ▹ write_message_type NetMessageType.create_db
      ▹ write msg.session_id
      ▹ write (le_bytes 4 msg.request_id)
      ▹ write_string msg.db_name true).buffer

unfoldable pub encode_attach_db : AttachDbNetMessage → List ℕ
encode_attach_db msg =
    (empty
      ▹ write_message_type NetMessageType.attach_db
      ▹ write msg.session_id
      ▹ write (le_bytes 4 msg.request_id)
      ▹ write_string msg.db_name true).buffer

unfoldable pub encode_cancel_stream : CancelStreamMessage → List ℕ
encode_cancel_stream msg =
    (empty
      ▹ write_message_type NetMessageType.cancel_stream
      ▹ write msg.session_id
      ▹ write (le_bytes 4 msg.request_id)).buffer

unfoldable pub encode_close : CloseNetMessage → List ℕ
encode_close msg =
    (empty
      ▹ write_message_type NetMessageType.close
      ▹ write msg.session_id
      ▹ write (le_bytes 4 msg.request_id)).buffer

unfoldable pub encode : NetMessage → List ℕ
encode (ping_message msg) = encode_ping msg
encode (pong_message msg) = encode_pong msg
encode (query_message msg) = encode_query msg
encode (create_db_message msg) = encode_create_db msg
encode (attach_db_message msg) = encode_attach_db msg
encode (cancel_stream_message msg) = encode_cancel_stream msg
encode (close_message msg) = encode_close msg

-- The answer to bytes that are no message.
abbrev pub protocol_violation_message : NetMessage
protocol_violation_message = close_message (record { session_id = null_uuid; request_id = 0 })

-- The cases of the switch in `parse`; `fail` stands for `return protocol_violation_message();`.
pub parse_as : NetMessageType → Reader NetMessage
parse_as NetMessageType.ping = do
  request_id ← read_word 4
  pure (ping_message (record { request_id = request_id }))
parse_as NetMessageType.pong = do
  session_id ← read_exactly 16
  request_id ← read_word 4
  raw_err ← read_word 1
  payload ← read_bytes true
  pure (
      pong_message (record {
        session_id = session_id;
        err = error_of raw_err;
        request_id = request_id;
        payload = payload;
      }))
parse_as NetMessageType.query = do
  session_id ← read_exactly 16
  request_id ← read_word 4
  query ← read_string true
  pure (query_message (record { session_id = session_id; request_id = request_id; query = query }))
parse_as NetMessageType.create_db = do
  session_id ← read_exactly 16
  request_id ← read_word 4
  db_name ← read_string true
  pure (
      create_db_message
        (record { session_id = session_id; request_id = request_id; db_name = db_name }))
parse_as NetMessageType.attach_db = do
  session_id ← read_exactly 16
  request_id ← read_word 4
  db_name ← read_string true
  pure (
      attach_db_message
        (record { session_id = session_id; request_id = request_id; db_name = db_name }))
parse_as NetMessageType.cancel_stream = do
  session_id ← read_exactly 16
  request_id ← read_word 4
  pure (cancel_stream_message (record { session_id = session_id; request_id = request_id }))
parse_as NetMessageType.close = do
  session_id ← read_exactly 16
  request_id ← read_word 4
  pure (close_message (record { session_id = session_id; request_id = request_id }))
parse_as NetMessageType.undefined = fail
parse_as (NetMessageType.unnamed n) = fail

unfoldable pub parse_message : Reader NetMessage
parse_message = do raw_type ← read_word 1; parse_as (type_of raw_type)

unfoldable pub parse : List ℕ → NetMessage
parse bytes = elim (parse_message (open_stream bytes)) [
  | none ↦ protocol_violation_message
  | some (message, stream) ↦ message
]
