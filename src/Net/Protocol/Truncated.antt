-- ===== src/Net/Protocol/Truncated.antt =====
-- std_protocol.cpp: a message that ends too soon.
use deltabase_c.Prelude.{ℕ, ◌≡◌, List, take, length, [], ◌∷◌, refl, arith, true, ◌<◌}
use deltabase_c.Stream.Word.{le_bytes, IsU64, IsU32}
use deltabase_c.Types.Value.{Uuid, IsUuid}
use deltabase_c.Storage.Encode.Layout.{layout}
use deltabase_c.Stream.Cut.{Cuts, Cuts-bind, Cuts-pure, Cuts-read_word, Cuts-read_exactly}
use deltabase_c.Stream.{
  read_exactly, read_word, pure, ◌>>=◌, Parses-read_exactly, Parses-read_word, open_stream,
}
use deltabase_c.Net.BigEndian.{
  sized, read_string, Cuts-read_bytes, Cuts-read_string, Parses-read_bytes, Parses-read_string,
}
use deltabase_c.Net.Message.{
  NetMessage, ping_message, pong_message, query_message, create_db_message, attach_db_message,
  cancel_stream_message, close_message, IsMessage, error_code, error_code_bound, type_byte,
}
use deltabase_c.Net.Protocol.{encode, parse, parse_as, parse_message, protocol_violation_message}
use deltabase_c.Net.Protocol.RoundTrip.{
  type_of_message, fields, encode_lem, type_byte_bound, type_of-type_byte,
}

module _ {ℓ} {A : Type ℓ} (session_id : Uuid) (request_id : ℕ) (body : List ℕ) where
  -- Behind the type, a message with a session has the same fields in the same order.
  addressed :
      IsUuid session_id × IsU32 request_id × IsU64 (length body)
      → (g : List ℕ → ℕ → List ℕ → A)
      → Cuts
          (do
            session ← read_exactly 16
            request ← read_word 4
            text ← read_string true
            pure (g session request text))
          (layout (session_id ∷ le_bytes 4 request_id ∷ sized body ∷ []))
  addressed h g =
      Cuts-bind _ (Parses-read_exactly 16 session_id h.0) (Cuts-read_exactly 16 session_id h.0) (
        Cuts-bind _ (Parses-read_word 4 request_id h.1) (Cuts-read_word 4 request_id)
          (Cuts-bind _ (Parses-read_string body h.2) (Cuts-read_string body h.2) (Cuts-pure _)))

  bare :
      IsUuid session_id × IsU32 request_id
      → (g : List ℕ → ℕ → A)
      → Cuts
          (do session ← read_exactly 16; request ← read_word 4; pure (g session request))
          (layout (session_id ∷ le_bytes 4 request_id ∷ []))
  bare h g =
      Cuts-bind _ (Parses-read_exactly 16 session_id h.0) (Cuts-read_exactly 16 session_id h.0) (
        Cuts-bind _ (Parses-read_word 4 request_id h.1) (Cuts-read_word 4 request_id) (Cuts-pure _))

Cuts-parse_as : (m : NetMessage) → IsMessage m → Cuts (parse_as (type_of_message m)) (fields m)
unfolding parse_as
Cuts-parse_as (ping_message m) h =
    Cuts-bind _ (Parses-read_word 4 m.request_id h) (Cuts-read_word 4 m.request_id) (Cuts-pure _)
Cuts-parse_as (pong_message m) h =
    Cuts-bind _ (Parses-read_exactly 16 m.session_id h.0) (Cuts-read_exactly 16 m.session_id h.0) (
      Cuts-bind _ (Parses-read_word 4 m.request_id h.1) (Cuts-read_word 4 m.request_id) (
        Cuts-bind _ (Parses-read_word 1 (error_code m.err) (error_code_bound m.err h.2))
          (Cuts-read_word 1 (error_code m.err))
          (Cuts-bind _ (Parses-read_bytes m.payload h.3) (Cuts-read_bytes m.payload h.3)
            (Cuts-pure _))))
Cuts-parse_as (query_message m) h = addressed m.session_id m.request_id m.query h _
Cuts-parse_as (create_db_message m) h = addressed m.session_id m.request_id m.db_name h _
Cuts-parse_as (attach_db_message m) h = addressed m.session_id m.request_id m.db_name h _
Cuts-parse_as (cancel_stream_message m) h = bare m.session_id m.request_id [] h _
Cuts-parse_as (close_message m) h = bare m.session_id m.request_id [] h _

Cuts-parse_message : (m : NetMessage) → IsMessage m → Cuts parse_message (encode m)
unfolding parse_message
Cuts-parse_message m h =
    let b = type_byte (type_of_message m) in
    rw (encode_lem m) (
      Cuts-bind _ (Parses-read_word 1 b (type_byte_bound m)) (Cuts-read_word 1 b)
        (rw (type_of-type_byte m) (Cuts-parse_as m h)))

-- A message whose fields are in range, cut anywhere before its end, is answered as a violation of the
-- protocol.
pub parse-take :
    (m : NetMessage) (k : ℕ)
    → IsMessage m
    → k < length (encode m)
    → parse (take k (encode m)) ≡ protocol_violation_message
unfolding parse open_stream
parse-take m k h l =
    rw (parse, (Cuts-parse_message m h).at (open_stream (take k (encode m))) k (omega arith) l refl)
      refl
