-- ===== src/Tasmota/Fields.antt =====
-- internal/tasmota/utils.go: `formatFloat`, `formatInt`, `formatBool` and `getFieldValue`.
-- `strconv.FormatFloat(value, 'f', -1, 64)` is an argument. The reflection of `getFieldValue` walks
-- the fields of the struct in the order of their declaration.
pub mod Laws
pub mod Agree
use mqtt_sensor_exporter.Common.{
  String, ◌==◌, Bool, true, false, Option, none, some, List, [], ◌∷◌, if◌then◌else◌,
}
use mqtt_sensor_exporter.Common.Dict.{Dict, lookup}
use mqtt_sensor_exporter.Common.Int.{ℤ}
use mqtt_sensor_exporter.Common.Decimal.{decimal}
use mqtt_sensor_exporter.Tasmota.Types.{ZigbeeDevice}

unfoldable pub format_float : {F : Type 0} → (F → String) → F → String
format_float format value = format value

unfoldable pub format_int : ℤ → String
format_int value = decimal value

unfoldable pub format_bool : Bool → String
format_bool true = "true"
format_bool false = "false"

-- The value of a field, dereferenced, by its Go type. `Additional` is a map that nothing sets.
pub data FieldValue (F : Type 0) : Type 0 where
  string_value : String → FieldValue F
  int_value : ℤ → FieldValue F
  int64_value : ℤ → FieldValue F
  float_value : F → FieldValue F
  bool_value : Bool → FieldValue F
  nil_map : FieldValue F

abbrev pub deref : {A F : Type 0} → (A → FieldValue F) → Option A → Option (FieldValue F)
deref wrap none = none
deref wrap (some x) = some (wrap x)

-- The fields with their names; a nil pointer has no value.
unfoldable pub fields_of : {F : Type 0} → ZigbeeDevice F → Dict (Option (FieldValue F))
fields_of zb =
    ("Device", some (string_value zb.device))
    ∷ ("Name", some (string_value zb.name))
    ∷ ("Power", deref int_value zb.power)
    ∷ ("Endpoint", deref int_value zb.endpoint)
    ∷ ("LinkQuality", deref int_value zb.link_quality)
    ∷ ("BatteryPercentage", deref int_value zb.battery_percentage)
    ∷ ("Temperature", deref float_value zb.temperature)
    ∷ ("Humidity", deref float_value zb.humidity)
    ∷ ("Pressure", deref float_value zb.pressure)
    ∷ ("Voltage", deref float_value zb.voltage)
    ∷ ("Contact", deref bool_value zb.contact)
    ∷ ("Occupancy", deref bool_value zb.occupancy)
    ∷ ("WaterLeak", deref bool_value zb.water_leak)
    ∷ ("WaterLevel", deref int_value zb.water_level)
    ∷ ("LastValveOpenDuration", deref int_value zb.last_valve_open_duration)
    ∷ ("IrrigationStartTime", deref int64_value zb.irrigation_start_time)
    ∷ ("IrrigationEndTime", deref int64_value zb.irrigation_end_time)
    ∷ ("DailyIrrigationVolume", deref int_value zb.daily_irrigation_volume)
    ∷ ("Additional", some nil_map)
    ∷ []

abbrev pub or_none : {A : Type 0} → Option (Option A) → Option A
or_none none = none
or_none (some v) = v

-- A nil device, an unknown name and a nil pointer all give no value.
unfoldable pub get_field_value :
    {F : Type 0} → Option (ZigbeeDevice F) → String → Option (FieldValue F)
get_field_value none field_name = none
get_field_value (some zb) field_name = or_none (lookup field_name (fields_of zb))
