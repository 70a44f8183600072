-- ===== src/Examples/Alarm.antt =====
-- The theorems on the way from a message to an alert, applied: the soil sensor reports 22 degrees,
-- and its condition is a temperature above 5.
use mqtt_sensor_exporter.Common.{ℕ, String, some, none, List, [], ◌∷◌, select, Result}
use mqtt_sensor_exporter.Common.Int.{ℤ, pos}
use mqtt_sensor_exporter.Kube.{Device, AlertCondition}
use mqtt_sensor_exporter.Database.Gorm.{Lookup, found, not_found}
use mqtt_sensor_exporter.Database.Queries.Tables.{entries}
use mqtt_sensor_exporter.Database.Manager.{Connections, get_db_for_sensor_type}
use mqtt_sensor_exporter.Database.Manager as Manager
use mqtt_sensor_exporter.Tasmota.Types.{ZigbeeDevice, TelemetryMessage}
use mqtt_sensor_exporter.Api.Measure.{Average}
use mqtt_sensor_exporter.Api.Alerts.{AlertDevice, alerts_of}
use mqtt_sensor_exporter.Pipeline.{receive}
use mqtt_sensor_exporter.Alarm.Readings.{Reading, column_view, is_matched}
use mqtt_sensor_exporter.Alarm.Answer.{averages}
use mqtt_sensor_exporter.Examples.World.{Tables, integers, no_rows, garden, outside}
use mqtt_sensor_exporter.Examples.Tasmota.{conns}
use mqtt_sensor_exporter.Examples.Mqtt.{blank}
use mqtt_sensor_exporter.Json.Value.{Json, number, text, object, no_members, member}
use mqtt_sensor_exporter.Tasmota.Decode.{zero_device, unmarshal_message}
use mqtt_sensor_exporter.Examples.Api.{no_filters}

-- The query, for at most one row with a value.
abbrev average_of : List (Reading ℤ) → Lookup (Average ℤ)
average_of [] = found (record { avg_value = pos 0; last_timestamp = pos 0 })
average_of (r ∷ rest) = elim r.value [
  | none ↦ not_found
  | some x ↦ found (record { avg_value = x; last_timestamp = r.time })
]

abbrev scan : Tables → Unit {0} → String → String → ℕ → ℤ → Lookup (Average ℤ)
scan w h table column id start =
    average_of (select (is_matched id start) (entries (column_view integers table column) w.rows))

abbrev soil_report : ZigbeeDevice ℤ
soil_report = record (zero_device {F = ℤ}) { device = "0x1A2C"; temperature = some (pos 22) }

-- { "ZbReceived": { "0x1A2C": { "Device": "0x1A2C", "Temperature": 22 } } }
abbrev document : Json
document = object (
    member "ZbReceived"
      (object (
        member "0x1A2C"
          (object (member "Device" (text "0x1A2C") (member "Temperature" (number "22") no_members)))
          no_members))
      no_members)

abbrev decode_soil : List ℕ → Result (TelemetryMessage ℤ)
decode_soil = unmarshal_message integers (λ payload. some document)

abbrev payload : List ℕ
payload = []

abbrev condition : AlertCondition
condition = record { measurement = "Temperature"; operator = "above"; value = "5" }

abbrev after : Tables
after = receive outside decode_soil (some conns) blank "telemetry" "tele/x/SENSOR" payload no_rows

abbrev clock : Device → ℤ
clock e = pos 2000

abbrev alerts : List (AlertDevice ℤ)
alerts =
    alerts_of integers (averages outside decode_soil scan)
      (λ e t. get_db_for_sensor_type (λ es. es) t conns) (pos 2000) clock no_filters after garden
