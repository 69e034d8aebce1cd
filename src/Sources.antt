-- ===== src/Sources.antt =====
-- The sources of claims, src/sources: which extraction candidate is published, and the one attempt to publish it.
pub mod Rows
pub mod Decision
mod Threshold
pub mod Publication
pub mod Winner
pub mod Attempting
mod Kept
mod Once
pub mod Ingestion
mod Ingesting
mod Tests
