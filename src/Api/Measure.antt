-- ===== src/Api/Measure.antt =====
-- internal/api/alerts_service.go: the measurement that an alert is judged by. Times are in
-- nanoseconds since Go's zero `time.Time`. The query that each sensor type makes is the field
-- `scan_average` of the database, with the table and the column that it names.
use mqtt_sensor_exporter.Common.{
  ℕ, String, ◌<>◌, ◌==◌, ◌||◌, Option, none, some, errorf, wrapf, Result, ok, err, if◌then◌else◌,
}
use mqtt_sensor_exporter.Common.Int.{ℤ, pos, ◌+ℤ◌, ◌-ℤ◌, wrap_int, eqb_ℤ}
use mqtt_sensor_exporter.Database.Gorm.{DbDevice, Lookup, found, not_found, failed, Gorm}
use mqtt_sensor_exporter.Database.Kind.{Kind, moisture, water_level, valve, room, other, kind}
use mqtt_sensor_exporter.Api.Duration.{minute}

-- `AvgValue` and `LastTimestamp`
pub record Average (F : Type 0) : Type 0 where
  pub avg_value : F
  pub last_timestamp : ℤ

-- `SELECT AVG(column), MAX(timestamp) FROM table WHERE device_id = ? AND timestamp >= ?`, as
-- `scan_average w h table column id start`; no rows leave the zero time in place.
pub record Averages (W H F : Type 0) : Type 0 where
  pub gorm : Gorm W H F
  pub scan_average : W → H → String → String → ℕ → ℤ → Lookup (Average F)

unfoldable pub get_measurement_column : String → String
get_measurement_column name =
    if name == "temperature" || name == "Temperature"
    then "temperature"
    else if name == "humidity" || name == "Humidity"
    then "humidity"
    else if name == "level" || name == "Level" || name == "water_level"
    then "level"
    else if name == "power" || name == "Power"
    then "power"
    else name

-- The table that a case of the switch reads.
abbrev pub table_of : Kind → Option String
table_of moisture = some "moisture_measurements"
table_of valve = some "valve_measurements"
table_of water_level = some "water_level_measurements"
table_of room = some "room_measurements"
table_of other = none

-- `nil` values are `none`; the pointer to the device is kept beside them.
pub record Measured (F : Type 0) : Type 0 where
  pub device : DbDevice
  pub average : Option (Average F)

-- After the query: an error, whose text is cut before the values that it lists, `nil` for no row,
-- and `nil` for the zero time.
unfoldable pub checked_average : {F : Type 0} → DbDevice → Lookup (Average F) → Result (Measured F)
checked_average d not_found = ok (record { device = d; average = none })
checked_average d (failed e) = err (wrapf "failed to query average measurement" e)
checked_average d (found a) =
    ok (record { device = d; average = if eqb_ℤ a.last_timestamp (pos 0) then none else some a })

-- `time.Now().Add(-since)`
abbrev pub window_start : ℤ → ℤ → ℤ
window_start now since = now +ℤ wrap_int (pos 0 -ℤ since)

-- A zero duration is a minute.
abbrev pub window : ℤ → ℤ
window since = if eqb_ℤ since (pos 0) then minute else since

module _ {W H F : Type 0} (db : Averages W H F) (now : ℤ) where
  unfoldable pub average_in :
      Option String → W → H → DbDevice → String → String → ℤ → Result (Measured F)
  average_in none w h d sensor_type field since = err (
      errorf (
        "unsupported sensor type: sensor_type=" <> sensor_type <> ", device_id=" <> d.device_id
        <> ", measurement_field=" <> field))
  average_in (some table) w h d sensor_type field since =
      checked_average d
        (db.scan_average w h table (get_measurement_column field) d.id (window_start now since))

  unfoldable pub get_average_measurement :
      W → H → DbDevice → String → String → ℤ → Result (Measured F)
  get_average_measurement w h d sensor_type field since =
      average_in (table_of (kind sensor_type)) w h d sensor_type field since

  unfoldable pub measure_device :
      W → H → String → String → String → ℤ → Lookup DbDevice → Result (Measured F)
  measure_device w h device_id sensor_type field since not_found = err (
      errorf (
        "device not found in database: device_id=" <> device_id <> ", sensor_type=" <> sensor_type))
  measure_device w h device_id sensor_type field since (failed e) = err (
      wrapf
        ("failed to query device from database: device_id=" <> device_id <> ", sensor_type="
          <> sensor_type)
        e)
  measure_device w h device_id sensor_type field since (found d) =
      get_average_measurement w h d sensor_type field (window since)

  -- The handle is what `dbGetter` gives for the sensor type.
  unfoldable pub get_measurement_value :
      W → Option H → String → String → String → ℤ → Result (Measured F)
  get_measurement_value w none device_id sensor_type field since = err (
      errorf (
        "database not available for device_id=" <> device_id <> ", sensor_type=" <> sensor_type
        <> ", measurement_field=" <> field))
  get_measurement_value w (some h) device_id sensor_type field since =
      measure_device w h device_id sensor_type field since (db.gorm.first_device w h device_id)
