-- ===== src/Alarm.antt =====
-- The way of a measurement from a message to an alert: internal/tasmota and internal/database write
-- the row that internal/api reads an average of.
pub mod Readings
pub mod Kept
pub mod Measured
pub mod Laws
pub mod Answer
