-- ===== src/Mqtt.antt =====
-- The connection options of internal/mqtt.
pub mod AzureIotHub
pub mod Common
