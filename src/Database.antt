-- ===== src/Database.antt =====
-- internal/database: the connections, the storage of measurements and their queries.
pub mod Gorm
pub mod Text
pub mod Store
pub mod Driver
pub mod Dsn
pub mod Kind
pub mod Manager
pub mod Handles
pub mod Queries
