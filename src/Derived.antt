-- ===== src/Derived.antt =====
-- ingredient/derived.rs: memoized derived queries. `World` holds all that an access touches,
-- `Compute` stands for the user's query functions, `Cell`, `Rounds` and `Access` are the state
-- machine.
pub mod World
pub mod Compute
pub mod Cell
pub mod Rounds
pub mod Access
pub mod Outcomes
pub mod Dropped
pub mod Cancel
pub mod Revalidation
pub mod Replay
pub mod Memo
pub mod Sound
pub mod Ends
pub mod Leading
pub mod Serving
pub mod Answers
pub mod Scratch
pub mod Consistency
pub mod Session
pub mod Promotion
pub mod Adoption
pub mod Stuck
pub mod Persist
pub mod Logged
pub mod Stored
pub mod Saved
pub mod Changes
pub mod Restored
pub mod Inputs
pub mod Snapshot
