-- ===== src/Jobs.antt =====
-- The jobs package.
pub mod Types
pub mod Schema
pub mod Tx
pub mod Rows
pub mod Repository
pub mod Claims
pub mod Payloads
pub mod Service
pub mod Reconciler
