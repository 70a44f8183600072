-- ===== src/Json.antt =====
-- A document of Go's `encoding/json`, as internal/tasmota decodes it by the tags of its structs.
pub mod Value
