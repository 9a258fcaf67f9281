-- ===== src/Runtime.antt =====
-- runtime.rs: revisions, cache scopes, the dependency graph with its two directions, and the
-- events. The proofs are in the children.
mod Defs
mod Propagation
pub mod Revisions
pub mod Deps
pub mod Walks
pub mod Invalidation
unfoldable pub use Defs.*
unfoldable pub use Propagation.*
