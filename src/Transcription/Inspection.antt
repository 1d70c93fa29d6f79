-- ===== src/Transcription/Inspection.antt =====
-- transcription/inspection.py.
pub mod Hosts
pub mod Urls
pub mod Identities
pub mod Classifying
pub mod Timeouts
pub mod Metadata
