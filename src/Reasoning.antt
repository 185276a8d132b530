-- ===== src/Reasoning.antt =====
-- The exchange of reasoning between agents: seb/reasoning/src.
pub mod A2aProtocol
pub mod Integration
pub mod Knowledge
pub mod Mermaid
pub mod Nif
pub mod Streaming
pub mod Timeline
pub mod Trace
