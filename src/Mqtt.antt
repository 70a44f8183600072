-- ===== src/Mqtt.antt =====
-- internal/mqtt: the connections to the MQTT bridges.
pub mod Types
pub mod Options
pub mod Topics
pub mod Manager
pub mod Steps
