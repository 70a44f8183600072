-- ===== src/Tasmota.antt =====
-- internal/tasmota: the messages, the corrections, the sanitizers and the telemetry handler.
pub mod Tags
pub mod Types
pub mod Corrections
pub mod Names
pub mod Build
pub mod Telemetry
pub mod Dispatcher
pub mod Fields
pub mod Decode
