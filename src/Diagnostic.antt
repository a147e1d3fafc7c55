-- ===== src/Diagnostic.antt =====
-- cmd/agent_smith/diagnostic.go
pub mod OrgId
pub mod Scan
pub mod Session
pub mod Checks
