-- ===== src/Install.antt =====
-- The modes of cmd/agent_smith that install, update and remove the agent.
pub mod Act
pub mod Machine
pub mod Host
pub mod Settings
pub mod Fetch
pub mod Reread
pub mod Config
pub mod Update
pub mod Uninstall
pub mod AutoUpdate
pub mod Loads
pub mod Succeeds
