-- ===== src/Types.antt =====
-- deltabase/src/types: the records that storage, log and recovery share. A string is its bytes, a
-- UUID the 16 bytes of its `value_`, and an `int` that holds flags the 32 bits of it.
pub mod Value
pub mod Meta
pub mod Page
pub mod WalLog
