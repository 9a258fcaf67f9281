-- ===== src/Debug.antt =====
-- debug.rs: the snapshot of the dependency graph, its queries without dependencies, its search for
-- chains of dependencies, and the statistics. What writes text is not here.
mod Defs
pub mod Distinct
pub mod Leaves
mod Chains
pub mod Routes
pub mod Counts
unfoldable pub use Defs.*
