-- ===== src/Utils.antt =====
-- internal/utils
pub mod Reconnect
pub mod Filepath
pub mod Sscanf
