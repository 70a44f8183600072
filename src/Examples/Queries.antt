-- ===== src/Examples/Queries.antt =====
-- The theorems on the queries, applied.
use mathlib.Core.List.{Permᴰ}
use mqtt_sensor_exporter.Common.{◌≡◌, refl, not, none, some, [], ◌∷◌, ok, select, arith}
use mqtt_sensor_exporter.Common.Int.{ℤ, pos, ltb_ℤ, ◌+ℤ◌, ◌-ℤ◌, wrap_int}
use mqtt_sensor_exporter.Common.Dict.{lookup}
use mqtt_sensor_exporter.Payload.{Payload, float, float_at}
use mqtt_sensor_exporter.Database.Gorm.{DbDevice, moisture, MoistureMeasurement}
use mqtt_sensor_exporter.Database.Store.Rows.{moisture_row, battery_rows, link_quality_rows}
use mqtt_sensor_exporter.Database.Store.Device.{ensure_device, settle_device}
use mqtt_sensor_exporter.Database.Store.Chain.{store_chain, create_measurement, create_logged}
use mqtt_sensor_exporter.Database.Store.Handlers.{store_moisture}
use mqtt_sensor_exporter.Database.Queries.{
  Measured, range_for, latest_moisture, get_measurements_by_time_range, delete_old_measurements,
}
use mqtt_sensor_exporter.Database.Queries.Tables.{moisture_view}
use mqtt_sensor_exporter.Database.Queries.Stored.{get_latest-store_moisture}
use mqtt_sensor_exporter.Database.Queries.Retention.{measurements, get_range-delete_old}
use mqtt_sensor_exporter.Examples.World.{Tables, integers, memory, rows_of, memory-IsLawful}
use mqtt_sensor_exporter.Examples.TablesInMemory.{table_of, last_of-ne-failed, table_of-IsQueryable}

abbrev soil : DbDevice
soil = record {
  id = 1;
  device_id = "device-soil";
  sensor_type = "moisture";
  device_name = "";
  short_addr = "";
  ieee_addr = "";
}

abbrev reading : ℤ → MoistureMeasurement ℤ
reading t = record {
  timestamp = t;
  device_id = 1;
  temperature = some (pos 20);
  humidity = none;
  endpoint = none;
}

abbrev two_readings : Tables
two_readings = record {
  next_id = 2;
  devices = soil ∷ [];
  rows = moisture (reading (pos 100)) ∷ moisture (reading (pos 900)) ∷ [];
}

abbrev report : Payload ℤ
report = ("Temperature", float (pos 22)) ∷ ("LinkQuality", float (pos 80)) ∷ []

get_latest-store_moisture_example :
    (d : DbDevice) × (d.device_id ≡ "device-soil")
    × (latest_moisture memory
          (table_of moisture_view)
          "device-soil"
          tt
          (store_moisture integers memory (pos 1000) "device-soil" report tt two_readings).0
        ≡ ok
            (some (record { measurement = moisture_row integers (pos 1000) d report; device = d })))
unfolding store_moisture store_chain ensure_device settle_device create_measurement create_logged
    battery_rows float_at lookup link_quality_rows
get_latest-store_moisture_example =
    get_latest-store_moisture integers memory rows_of memory-IsLawful (λ w h d. refl)
      (table_of moisture_view) (table_of-IsQueryable moisture_view) (pos 1000) "device-soil" report
      tt two_readings (omega arith) (last_of-ne-failed moisture_view) refl

abbrev new_room : Tables
new_room = record { next_id = 1; devices = []; rows = [] }

-- What a list of readings is, with the device assigned.
abbrev of_soil : MoistureMeasurement ℤ → Measured (MoistureMeasurement ℤ)
of_soil m = record { measurement = m; device = soil }

get_range-delete_old_example : Permᴰ (measurements (of_soil (reading (pos 900)) ∷ [])) (
    select
      (λ m. not (ltb_ℤ (m.timestamp +ℤ pos 500) (pos 1000)))
      (measurements (of_soil (reading (pos 100)) ∷ of_soil (reading (pos 900)) ∷ [])))
unfolding delete_old_measurements get_measurements_by_time_range range_for ◌+ℤ◌ ◌-ℤ◌ wrap_int
get_range-delete_old_example =
    get_range-delete_old memory (table_of moisture_view) moisture_view rows_of
      (table_of-IsQueryable moisture_view) (pos 1000) 500 tt two_readings (pos 1) (omega arith) refl
      "device-soil" (pos 0) (pos 2000)
      (of_soil (reading (pos 100)) ∷ of_soil (reading (pos 900)) ∷ [])
      (of_soil (reading (pos 900)) ∷ []) refl refl
