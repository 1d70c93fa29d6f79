-- ===== src/Jobs/Repository.antt =====
-- `PostgresTranscriptionJobRepository` of jobs/repository.py, a module for each group of methods.
pub mod Policy
pub mod Admission
pub mod Dispatching
pub mod Claiming
pub mod Recovery
pub mod Cancelling
pub mod Publishing
pub mod Reading
pub mod Steps
pub mod Scenario
pub mod Invariant
pub mod Lifecycle
pub mod Refusals
pub mod Grants
pub mod Published
pub mod Successes
pub mod Heartbeats
pub mod Leases
pub mod Admittance
pub mod Expiry
pub mod History
mod Tests
