-- ===== src/Net/Message.antt =====
-- deltabase/src/types/include/net_message.hpp and net_error.hpp: the messages between a client and the
-- server. A request id is the 32 bits of an `int32_t`.
use deltabase_c.Prelude.{
  ℕ, zero, suc, ◌≤◌, ◌<◌, ◌≡◌, refl, ◌⊎◌, inl, inr, List, arith, length, ◌==◌, if◌then◌else◌,
}
use deltabase_c.Stream.Word.{IsU64, IsU32}
use deltabase_c.Types.Value.{Uuid, IsUuid}

-- A byte without a check holds any value: `unnamed n` is one that no enumerator has.
pub data NetErrorCode : Type 0 where
  success start_stream stream_chunk end_stream protocol_violation db_not_exists : NetErrorCode
  sql_error uninitialized_session : NetErrorCode
  unnamed : ℕ → NetErrorCode

unfoldable pub error_code : NetErrorCode → ℕ
error_code success = 0
error_code start_stream = 1
error_code stream_chunk = 2
error_code end_stream = 3
error_code protocol_violation = 100
error_code db_not_exists = 101
error_code sql_error = 102
error_code uninitialized_session = 103
error_code (unnamed n) = n

unfoldable pub error_of : ℕ → NetErrorCode
error_of n =
    if n == 0
    then success
    else if n == 1
    then start_stream
    else if n == 2
    then stream_chunk
    else if n == 3
    then end_stream
    else if n == 100
    then protocol_violation
    else if n == 101
    then db_not_exists
    else if n == 102
    then sql_error
    else if n == 103
    then uninitialized_session
    else unnamed n

abbrev pub IsErrorCode : NetErrorCode → Type 0
IsErrorCode (unnamed n) = (((4 ≤ n) × (n < 100)) ⊎ (104 ≤ n)) × (n < 256)
IsErrorCode _ = Unit {0}

pub error_of-error_code : (e : NetErrorCode) → IsErrorCode e → error_of (error_code e) ≡ e
unfolding error_of error_code
error_of-error_code success h = refl
error_of-error_code start_stream h = refl
error_of-error_code stream_chunk h = refl
error_of-error_code end_stream h = refl
error_of-error_code protocol_violation h = refl
error_of-error_code db_not_exists h = refl
error_of-error_code sql_error h = refl
error_of-error_code uninitialized_session h = refl
error_of-error_code (unnamed n) h = elim h.0 [ inl k ↦ ground arith | inr k ↦ ground arith ]

pub error_code_bound : (e : NetErrorCode) → IsErrorCode e → error_code e < 256
unfolding error_code
error_code_bound success h = omega arith
error_code_bound start_stream h = omega arith
error_code_bound stream_chunk h = omega arith
error_code_bound end_stream h = omega arith
error_code_bound protocol_violation h = omega arith
error_code_bound db_not_exists h = omega arith
error_code_bound sql_error h = omega arith
error_code_bound uninitialized_session h = omega arith
error_code_bound (unnamed n) h = h.1

pub data NetMessageType : Type 0 where
  undefined ping pong query create_db attach_db close cancel_stream : NetMessageType
  unnamed : ℕ → NetMessageType

unfoldable pub type_byte : NetMessageType → ℕ
type_byte undefined = 0
type_byte ping = 1
type_byte pong = 2
type_byte query = 3
type_byte create_db = 4
type_byte attach_db = 5
type_byte close = 6
type_byte cancel_stream = 7
type_byte (unnamed n) = n

unfoldable pub type_of : ℕ → NetMessageType
type_of zero = undefined
type_of (suc zero) = ping
type_of (suc (suc zero)) = pong
type_of (suc (suc (suc zero))) = query
type_of (suc (suc (suc (suc zero)))) = create_db
type_of (suc (suc (suc (suc (suc zero))))) = attach_db
type_of (suc (suc (suc (suc (suc (suc zero)))))) = close
type_of (suc (suc (suc (suc (suc (suc (suc zero))))))) = cancel_stream
type_of (suc (suc (suc (suc (suc (suc (suc (suc n)))))))) =
    unnamed (suc (suc (suc (suc (suc (suc (suc (suc n))))))))

pub record PingNetMessage : Type 0 where
  pub request_id : ℕ

pub record PongNetMessage : Type 0 where
  pub session_id : Uuid
  pub err : NetErrorCode
  pub request_id : ℕ
  pub payload : List ℕ

pub record QueryNetMessage : Type 0 where
  pub session_id : Uuid
  pub request_id : ℕ
  pub query : List ℕ

pub record CreateDbNetMessage : Type 0 where
  pub session_id : Uuid
  pub request_id : ℕ
  pub db_name : List ℕ

pub record AttachDbNetMessage : Type 0 where
  pub session_id : Uuid
  pub request_id : ℕ
  pub db_name : List ℕ

pub record CancelStreamMessage : Type 0 where
  pub session_id : Uuid
  pub request_id : ℕ

pub record CloseNetMessage : Type 0 where
  pub session_id : Uuid
  pub request_id : ℕ

pub data NetMessage : Type 0 where
  ping_message : PingNetMessage → NetMessage
  pong_message : PongNetMessage → NetMessage
  query_message : QueryNetMessage → NetMessage
  create_db_message : CreateDbNetMessage → NetMessage
  attach_db_message : AttachDbNetMessage → NetMessage
  cancel_stream_message : CancelStreamMessage → NetMessage
  close_message : CloseNetMessage → NetMessage

-- What the fields of the structures can hold.
abbrev pub IsMessage : NetMessage → Type 0
IsMessage (ping_message m) = IsU32 m.request_id
IsMessage (pong_message m) =
    IsUuid m.session_id × IsU32 m.request_id × IsErrorCode m.err × IsU64 (length m.payload)
IsMessage (query_message m) = IsUuid m.session_id × IsU32 m.request_id × IsU64 (length m.query)
IsMessage (create_db_message m) =
    IsUuid m.session_id × IsU32 m.request_id × IsU64 (length m.db_name)
IsMessage (attach_db_message m) =
    IsUuid m.session_id × IsU32 m.request_id × IsU64 (length m.db_name)
IsMessage (cancel_stream_message m) = IsUuid m.session_id × IsU32 m.request_id
IsMessage (close_message m) = IsUuid m.session_id × IsU32 m.request_id
