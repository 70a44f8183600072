-- ===== src/Database/Store.antt =====
-- internal/database: what the four storage handlers do with a payload. Each first finds or creates
-- the device, then creates its measurement, and then, as far as the payload has them, the rows for
-- the battery and the link quality, whose failures are only logged.
pub mod Device
pub mod Chain
pub mod Rows
pub mod Handlers
