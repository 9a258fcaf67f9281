-- ===== src/Persist.antt =====
-- persist.rs: cache files and logs, saved, loaded, appended to, replayed and compacted.
mod Defs
pub mod Dropping
pub mod Shrinking
pub mod Fitting
pub mod Ingredients
pub mod Files
pub mod Saving
pub mod Loading
pub mod Atomic
pub mod Sections
pub mod RoundTrip
pub mod Logging
pub mod Replay
pub mod Compacting
pub mod Untouched
pub mod NewLog
pub mod Compaction
pub mod Instances
unfoldable pub use Defs.*
