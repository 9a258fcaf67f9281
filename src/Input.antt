-- ===== src/Input.antt =====
-- ingredient/input.rs: key-value inputs. Values are kept at their own type: in the source they are
-- type-erased, every writer stores the ingredient's value type, and each downcast to it succeeds.
mod Defs
pub mod Changes
pub mod Reads
pub mod History
pub mod Isolation
pub mod Scope
pub mod Persist
pub mod Stored
pub mod Snapshot
pub mod Writes
pub mod Incremental
unfoldable pub use Defs.*
