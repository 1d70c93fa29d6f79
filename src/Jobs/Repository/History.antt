-- ===== src/Jobs/Repository/History.antt =====
-- What holds over every history of repository calls.
pub mod Moves
pub mod Constraints
pub mod Invariance
pub mod Capacity
pub mod Following
pub mod Fates
pub mod Answers
pub mod Replays
pub mod Cancellations
pub mod Ownership
