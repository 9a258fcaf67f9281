-- ===== src/Key.antt =====
-- key.rs and revision.rs: revisions, kind ids, encoded keys and the erased identifiers of the
-- dependency graph. The hasher of the standard library and the codec of `facet-postcard` are
-- interfaces; what the code relies on in the codec is `RoundTrips`.
mod Defs
pub mod Equality
pub mod KindId
pub use Equality.{query_kind_eq, key_eq, dyn_key_eq, dep_eq}
unfoldable pub use Defs.*
