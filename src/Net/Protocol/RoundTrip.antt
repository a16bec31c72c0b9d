-- ===== src/Net/Protocol/RoundTrip.antt =====
-- std_protocol.cpp reads back the messages that it writes.
use deltabase_c.Prelude.{◌<◌, ℕ, ◌≡◌, refl, List, [], ◌∷◌, ◌++◌, append-nil, arith}
use deltabase_c.Stream.Word.{le_bytes}
use deltabase_c.Stream.{
  open_stream, Parses, Parses-bind, Parses-pure, writing, Parses-read_exactly, Parses-read_word,
}
use deltabase_c.Storage.Encode.Layout.{layout}
use deltabase_c.Net.BigEndian.{
  sized, write_bytes_lem, write_string_lem, Parses-read_bytes, Parses-read_string,
}
use deltabase_c.Net.Message.{
  NetMessage, ping_message, pong_message, query_message, create_db_message, attach_db_message,
  cancel_stream_message, close_message, NetMessageType, type_byte, type_of, error_code, IsMessage,
  error_of-error_code, error_code_bound,
}
use deltabase_c.Net.Protocol.{
  encode, encode_ping, encode_pong, encode_query, encode_create_db, encode_attach_db,
  encode_cancel_stream, encode_close, parse_as, parse_message, parse,
}

-- The type of a message, and what stands behind its byte.
abbrev pub type_of_message : NetMessage → NetMessageType
type_of_message (ping_message m) = NetMessageType.ping
type_of_message (pong_message m) = NetMessageType.pong
type_of_message (query_message m) = NetMessageType.query
type_of_message (create_db_message m) = NetMessageType.create_db
type_of_message (attach_db_message m) = NetMessageType.attach_db
type_of_message (cancel_stream_message m) = NetMessageType.cancel_stream
type_of_message (close_message m) = NetMessageType.close

abbrev pub fields : NetMessage → List ℕ
fields (ping_message m) = layout (le_bytes 4 m.request_id ∷ [])
fields (pong_message m) =
    layout (
      m.session_id ∷ le_bytes 4 m.request_id ∷ le_bytes 1 (error_code m.err) ∷ sized m.payload ∷ [])
fields (query_message m) = layout (m.session_id ∷ le_bytes 4 m.request_id ∷ sized m.query ∷ [])
fields (create_db_message m) =
    layout (m.session_id ∷ le_bytes 4 m.request_id ∷ sized m.db_name ∷ [])
fields (attach_db_message m) =
    layout (m.session_id ∷ le_bytes 4 m.request_id ∷ sized m.db_name ∷ [])
fields (cancel_stream_message m) = layout (m.session_id ∷ le_bytes 4 m.request_id ∷ [])
fields (close_message m) = layout (m.session_id ∷ le_bytes 4 m.request_id ∷ [])

pub encode_lem :
    (m : NetMessage) → encode m ≡ le_bytes 1 (type_byte (type_of_message m)) ++ fields m
unfolding encode encode_ping encode_pong encode_query encode_create_db encode_attach_db
    encode_cancel_stream encode_close
encode_lem (ping_message m) = simp (encode, encode_ping, writing, append-nil)
encode_lem (pong_message m) = simp (encode, encode_pong, writing, write_bytes_lem, append-nil)
encode_lem (query_message m) = simp (encode, encode_query, writing, write_string_lem, append-nil)
encode_lem (create_db_message m) =
    simp (encode, encode_create_db, writing, write_string_lem, append-nil)
encode_lem (attach_db_message m) =
    simp (encode, encode_attach_db, writing, write_string_lem, append-nil)
encode_lem (cancel_stream_message m) = simp (encode, encode_cancel_stream, writing, append-nil)
encode_lem (close_message m) = simp (encode, encode_close, writing, append-nil)

Parses-parse_as :
    (m : NetMessage) → IsMessage m → Parses (parse_as (type_of_message m)) (fields m) m
unfolding parse_as
Parses-parse_as (ping_message m) h = Parses-bind _ (Parses-read_word 4 _ h) (Parses-pure _)
Parses-parse_as (pong_message m) h = Parses-bind _ (Parses-read_exactly 16 _ h.0) (
    Parses-bind _ (Parses-read_word 4 _ h.1) (
      Parses-bind _ (Parses-read_word 1 _ (error_code_bound m.err h.2)) (
        rw (error_of-error_code m.err h.2)
          (Parses-bind _ (Parses-read_bytes _ h.3) (Parses-pure _)))))
Parses-parse_as (query_message m) h = Parses-bind _ (Parses-read_exactly 16 _ h.0) (
    Parses-bind _ (Parses-read_word 4 _ h.1)
      (Parses-bind _ (Parses-read_string _ h.2) (Parses-pure _)))
Parses-parse_as (create_db_message m) h = Parses-bind _ (Parses-read_exactly 16 _ h.0) (
    Parses-bind _ (Parses-read_word 4 _ h.1)
      (Parses-bind _ (Parses-read_string _ h.2) (Parses-pure _)))
Parses-parse_as (attach_db_message m) h = Parses-bind _ (Parses-read_exactly 16 _ h.0) (
    Parses-bind _ (Parses-read_word 4 _ h.1)
      (Parses-bind _ (Parses-read_string _ h.2) (Parses-pure _)))
Parses-parse_as (cancel_stream_message m) h =
    Parses-bind _ (Parses-read_exactly 16 _ h.0)
      (Parses-bind _ (Parses-read_word 4 m.request_id h.1) (Parses-pure _))
Parses-parse_as (close_message m) h =
    Parses-bind _ (Parses-read_exactly 16 _ h.0)
      (Parses-bind _ (Parses-read_word 4 m.request_id h.1) (Parses-pure _))

pub type_byte_bound : (m : NetMessage) → type_byte (type_of_message m) < 256
unfolding type_byte
type_byte_bound (ping_message m) = omega arith
type_byte_bound (pong_message m) = omega arith
type_byte_bound (query_message m) = omega arith
type_byte_bound (create_db_message m) = omega arith
type_byte_bound (attach_db_message m) = omega arith
type_byte_bound (cancel_stream_message m) = omega arith
type_byte_bound (close_message m) = omega arith

pub type_of-type_byte :
    (m : NetMessage) → type_of (type_byte (type_of_message m)) ≡ type_of_message m
unfolding type_of type_byte
type_of-type_byte (ping_message m) = refl
type_of-type_byte (pong_message m) = refl
type_of-type_byte (query_message m) = refl
type_of-type_byte (create_db_message m) = refl
type_of-type_byte (attach_db_message m) = refl
type_of-type_byte (cancel_stream_message m) = refl
type_of-type_byte (close_message m) = refl

Parses-parse_message : (m : NetMessage) → IsMessage m → Parses parse_message (encode m) m
unfolding parse_message
Parses-parse_message m h = rw (encode_lem m) (
    Parses-bind _ (Parses-read_word 1 _ (type_byte_bound m))
      (rw (type_of-type_byte m) (Parses-parse_as m h)))

-- A message whose fields are in range is read back as it was written, whatever bytes stand behind it.
pub parse-encode : (m : NetMessage) (rest : List ℕ) → IsMessage m → parse (encode m ++ rest) ≡ m
unfolding parse open_stream
parse-encode m rest h =
    rw
      (
        parse,
        (Parses-parse_message m h).at (open_stream (encode m ++ rest)) rest (omega arith) refl,
      )
      refl
