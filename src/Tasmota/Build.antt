-- ===== src/Tasmota/Build.antt =====
-- internal/tasmota/telemetry_handler.go: the payload that `storeMeasurement` builds.
pub mod Laws
pub mod Rows
pub mod Types
use mqtt_sensor_exporter.Common.{
  String, Bool, Option, none, some, List, [], ◌∷◌, ◌==◌, if◌then◌else◌,
}
use mqtt_sensor_exporter.Common.Dict.{insert}
use mqtt_sensor_exporter.Common.Int.{ℤ}
use mqtt_sensor_exporter.Float.{Float64}
use mqtt_sensor_exporter.Kube.{Device}
use mqtt_sensor_exporter.Payload.{Value, text, float, flag, Payload}
use mqtt_sensor_exporter.Tasmota.Types.{ZigbeeDevice}
use mqtt_sensor_exporter.Tasmota.Corrections.{apply_correction_to_float, apply_correction_to_int}

module _ {F : Type 0} where
  -- `if value != nil { payload[key] = *value }`, one after the other.
  unfoldable pub put : String → Option (Value F) → Payload F → Payload F
  put key none payload = payload
  put key (some v) payload = insert key v payload

  unfoldable pub puts : List (String × Option (Value F)) → Payload F → Payload F
  puts [] payload = payload
  puts ((key, v) ∷ rest) payload = puts rest (put key v payload)

  abbrev pub text_unless_empty : String → Option (Value F)
  text_unless_empty s = if s == "" then none else some (text s)

  -- The friendly name, or else the name that the sensor reports.
  abbrev pub name_value : String → String → Option (Value F)
  name_value friendly reported =
      if friendly == "" then text_unless_empty reported else some (text friendly)

  abbrev pub flag_value : Option Bool → Option (Value F)
  flag_value none = none
  flag_value (some b) = some (flag b)

module _ {F : Type 0} (fl : Float64 F) where
  -- `float64(*p)`
  abbrev pub int_value : Option ℤ → Option (Value F)
  int_value none = none
  int_value (some n) = some (float (fl.of_int n))

module _ {F : Type 0} (fl : Float64 F) (device : Device) where
  abbrev pub corrected : String → Option F → Option (Value F)
  corrected key none = none
  corrected key (some x) = some (float (apply_correction_to_float fl x key (some device)))

  abbrev pub corrected_int : String → Option ℤ → Option ℤ
  corrected_int key none = none
  corrected_int key (some n) = some (apply_correction_to_int fl n key (some device))

  -- The keys in the order in which they are set.
  unfoldable pub assignments : ZigbeeDevice F → List (String × Option (Value F))
  assignments zb =
      ("Device", text_unless_empty zb.device)
      ∷ ("Name", name_value device.friendly_name zb.name)
      ∷ ("Temperature", corrected "temperature" zb.temperature)
      ∷ ("Humidity", corrected "humidity" zb.humidity)
      ∷ ("Pressure", corrected "pressure" zb.pressure)
      ∷ ("Voltage", corrected "voltage" zb.voltage)
      ∷ (
        "BatteryPercentage",
        int_value fl (corrected_int "battery_percentage" zb.battery_percentage),
      )
      ∷ ("Power", int_value fl (corrected_int "power" zb.power))
      ∷ ("LinkQuality", int_value fl (corrected_int "link_quality" zb.link_quality))
      ∷ ("Endpoint", int_value fl zb.endpoint)
      ∷ ("Contact", flag_value zb.contact)
      ∷ ("Occupancy", flag_value zb.occupancy)
      ∷ ("WaterLeak", flag_value zb.water_leak)
      ∷ ("WaterLevel", int_value fl (corrected_int "water_level" zb.water_level))
      ∷ (
        "LastValveOpenDuration",
        int_value fl (corrected_int "last_valve_open_duration" zb.last_valve_open_duration),
      )
      ∷ ("IrrigationStartTime", int_value fl zb.irrigation_start_time)
      ∷ ("IrrigationEndTime", int_value fl zb.irrigation_end_time)
      ∷ (
        "DailyIrrigationVolume",
        int_value fl (corrected_int "daily_irrigation_volume" zb.daily_irrigation_volume),
      )
      ∷ []

  unfoldable pub build_payload : ZigbeeDevice F → Payload F
  build_payload zb = puts (assignments zb) []
