-- ===== src/Database/Queries.antt =====
-- The queries of moisture_handler.go and room_handler.go: `GetLatestMeasurement`,
-- `GetMeasurementsByTimeRange` and `DeleteOldMeasurements`. The two files differ in the table only.
pub mod Tables
pub mod Latest
pub mod Stored
pub mod Retention
use mqtt_sensor_exporter.Common.{
  ℕ, String, Option, none, some, List, [], map, wrapf, Result, ok, err, Action, with_context,
}
use mqtt_sensor_exporter.Common.Int.{ℤ, pos, ◌+ℤ◌, ◌-ℤ◌, wrap_int}
use mqtt_sensor_exporter.Database.Gorm.{
  DbDevice, MoistureMeasurement, RoomMeasurement, Lookup, found, not_found, failed, Gorm,
}

-- The calls of `gorm` on one table, whose measurements are of type `M`.
pub record Table (W H M : Type 0) : Type 0 where
  -- `Where("device_id = ?", id).Order("timestamp DESC").First(&measurement)`
  pub last_of : W → H → ℕ → Lookup M
  -- `Where("device_id = ? AND timestamp BETWEEN ? AND ?", id, start, end)` in ascending order
  pub between : W → H → ℕ → ℤ → ℤ → Result (List M)
  -- `Where("timestamp < ?", cutoff).Delete(…)`, with the number of rows affected
  pub delete_before : W → H → ℤ → W × Result ℤ

-- A measurement whose field `Device` is assigned.
pub record Measured (M : Type 0) : Type 0 where
  pub measurement : M
  pub device : DbDevice

abbrev pub assign_device : {M : Type 0} → DbDevice → List M → List (Measured M)
assign_device d ms = map (λ m. record { measurement = m; device = d }) ms

-- `time.Now().Add(-olderThan)`; the negation of a `time.Duration` wraps.
abbrev pub cutoff_of : ℤ → ℤ → ℤ
cutoff_of now older_than = now +ℤ wrap_int (pos 0 -ℤ older_than)

-- The branches on the outcome of the second query, and then those of the first.
module _ {M : Type 0} (d : DbDevice) where
  abbrev pub latest_row : Lookup M → Result (Option (Measured M))
  latest_row (found m) = ok (some (record { measurement = m; device = d }))
  latest_row not_found = ok none
  latest_row (failed e) = err (wrapf "failed to get latest measurement" e)

  abbrev pub range_rows : Result (List M) → Result (List (Measured M))
  range_rows (ok ms) = ok (assign_device d ms)
  range_rows (err e) = err (wrapf "failed to get measurements by time range" e)

module _ {W H F M : Type 0} (g : Gorm W H F) (table : Table W H M) where
  unfoldable pub latest_for : H → W → Lookup DbDevice → Result (Option (Measured M))
  latest_for h w (found d) = latest_row d (table.last_of w h d.id)
  latest_for h w not_found = ok none
  latest_for h w (failed e) = err (wrapf "failed to find device" e)

  unfoldable pub get_latest_measurement : String → H → W → Result (Option (Measured M))
  get_latest_measurement device_id h w = latest_for h w (g.first_device w h device_id)

  unfoldable pub range_for : ℤ → ℤ → H → W → Lookup DbDevice → Result (List (Measured M))
  range_for start end h w (found d) = range_rows d (table.between w h d.id start end)
  range_for start end h w not_found = ok []
  range_for start end h w (failed e) = err (wrapf "failed to find device" e)

  unfoldable pub get_measurements_by_time_range :
      String → ℤ → ℤ → H → W → Result (List (Measured M))
  get_measurements_by_time_range device_id start end h w =
      range_for start end h w (g.first_device w h device_id)

-- `now` is the one call of `time.Now()`.
unfoldable pub delete_old_measurements : {W H M : Type 0} → Table W H M → ℤ → ℤ → H → Action W ℤ
delete_old_measurements table now older_than h w =
    with_context "failed to delete old measurements"
      (table.delete_before w h (cutoff_of now older_than))

-- The methods of the two handlers.
module _ {W H F : Type 0} (g : Gorm W H F) (table : Table W H (MoistureMeasurement F)) where
  unfoldable pub latest_moisture :
      String → H → W → Result (Option (Measured (MoistureMeasurement F)))
  latest_moisture = get_latest_measurement g table

  unfoldable pub moisture_range :
      String → ℤ → ℤ → H → W → Result (List (Measured (MoistureMeasurement F)))
  moisture_range = get_measurements_by_time_range g table

unfoldable pub delete_old_moisture :
    {W H F : Type 0} → Table W H (MoistureMeasurement F) → ℤ → ℤ → H → Action W ℤ
delete_old_moisture table = delete_old_measurements table

module _ {W H F : Type 0} (g : Gorm W H F) (table : Table W H (RoomMeasurement F)) where
  unfoldable pub latest_room : String → H → W → Result (Option (Measured (RoomMeasurement F)))
  latest_room = get_latest_measurement g table

  unfoldable pub room_range : String → ℤ → ℤ → H → W → Result (List (Measured (RoomMeasurement F)))
  room_range = get_measurements_by_time_range g table

unfoldable pub delete_old_room :
    {W H F : Type 0} → Table W H (RoomMeasurement F) → ℤ → ℤ → H → Action W ℤ
delete_old_room table = delete_old_measurements table
