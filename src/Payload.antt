-- ===== src/Payload.antt =====
-- The `map[string]any` in which the telemetry handler hands measurements to the storage handlers,
-- and Go's type assertions `v, ok := payload[key].(T)` on it.
use mqtt_sensor_exporter.Common.{String, Bool, Option, none, some}
use mqtt_sensor_exporter.Common.Dict.{Dict, lookup}

-- The dynamic types that are put into a payload.
pub data Value (F : Type 0) : Type 0 where
  text : String → Value F
  float : F → Value F
  flag : Bool → Value F

abbrev pub Payload : Type 0 → Type 0
Payload F = Dict (Value F)

module _ {F : Type 0} where
  abbrev pub as_text : Option (Value F) → Option String
  as_text (some (text s)) = some s
  as_text _ = none

  abbrev pub as_float : Option (Value F) → Option F
  as_float (some (float x)) = some x
  as_float _ = none

  -- `payload[key].(string)` and `payload[key].(float64)`: a missing key and another dynamic type
  -- both give `ok == false`.
  unfoldable pub text_at : String → Payload F → Option String
  text_at key payload = as_text (lookup key payload)

  unfoldable pub float_at : String → Payload F → Option F
  float_at key payload = as_float (lookup key payload)
