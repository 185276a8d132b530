-- ===== src/Universe.antt =====
-- The artifact universe: seb/universe/src.
pub mod Manifest
pub mod CvmGate
pub mod Search
pub mod Repository
pub mod Samples
