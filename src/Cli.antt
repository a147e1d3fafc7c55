-- ===== src/Cli.antt =====
-- The command line of cmd/agent_smith.
pub mod Flags
pub mod Contexts
pub mod Dispatch
pub mod UsageText
