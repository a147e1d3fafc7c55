-- ===== src/Agent.antt =====
-- internal/agent
pub mod Device
pub mod Updater
pub mod Installation
pub mod Host
