-- ===== src/Plugins.antt =====
-- plugins/loader.go: the notification plugins and their supervision.
pub mod Supervisor
pub mod Set
