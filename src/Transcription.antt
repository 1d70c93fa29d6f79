-- ===== src/Transcription.antt =====
-- The transcription package.
pub mod Fields
pub mod Response
pub mod Faults
pub mod Normalizing
pub mod Inspection
pub mod Ownership
pub mod Retries
pub mod Captions
