-- ===== src/Inflight.antt =====
-- inflight.rs: the cache of completed results that runtimes share, and the registry that lets
-- concurrent queries for one key share one computation. The proofs are in the children.
pub mod SharedCache
pub mod Eviction
pub mod Limit
pub mod Registry
pub mod SingleFlight
pub mod Interleaving
