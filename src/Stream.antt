-- ===== src/Stream.antt =====
-- deltabase/src/misc/memory_stream.cpp: `MemoryStream`, which serializers write, and
-- `ReadOnlyMemoryStream`, which deserializers read. A byte is a number; integers are copied to and
-- from memory in the byte order of a little-endian machine. A position plus a count does not wrap:
-- the one is within a buffer and the other the size of one.
pub mod Word
mod Write
mod Read
pub mod Cut
pub use Write.*
unfoldable pub use Read.*
