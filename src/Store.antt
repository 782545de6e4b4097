-- ===== src/Store.antt =====
-- The client state container of packages/core/src/store.ts.
pub mod Merge
pub mod State
pub mod Ephemeral
pub mod Feed
pub mod Unique
pub mod Actions
pub mod Kept
pub mod Invariant
pub mod Replay
pub mod Streams
pub mod Confirm
mod Tests
