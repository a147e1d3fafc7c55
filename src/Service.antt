-- ===== src/Service.antt =====
-- cmd/agent_smith: the service mode
pub mod Backoff
pub mod Spool
pub mod Postback
pub mod Cycle
pub mod Startup
