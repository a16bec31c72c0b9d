-- ===== src/Wal.antt =====
-- deltabase/src/wal: the write-ahead log.
pub mod Locals
pub mod Txn
pub mod Data
pub mod Schema
pub mod Table
pub mod Index
pub mod Serializer
pub mod Manager
