-- ===== src/HumanTouch.antt =====
-- The human review gateway: seb/human_touch/src.
pub mod AuditLog
pub mod ReviewQueue
pub mod Samples
pub mod Startup
pub mod Interactive
pub mod Processor
pub mod CommitGateway
