-- ===== src/Interned.antt =====
-- ingredient/interned.rs: interned values with stable ids.
mod Defs
pub mod Stability
unfoldable pub use Defs.*
pub mod Loading
