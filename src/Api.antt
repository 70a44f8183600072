-- ===== src/Api.antt =====
-- internal/api: the REST API.
pub mod Text
pub mod Duration
pub mod Filters
pub mod Measure
pub mod Alerts
pub mod Handler
pub mod Server
