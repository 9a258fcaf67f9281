-- ===== src/Wal.antt =====
-- wal.rs: the file of the write-ahead log, its writer and its reader. A file is the list of its bytes;
-- opening, reading and writing it do not fail. The codec of `facet-postcard` is a parameter.
mod Defs
pub mod Framing
pub mod RoundTrip
pub mod Torn
unfoldable pub use Defs.*
