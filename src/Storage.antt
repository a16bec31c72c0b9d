-- ===== src/Storage.antt =====
-- deltabase/src/storage: how rows, pages, metadata and index files are stored as bytes.
pub mod Encode
pub mod Decode
