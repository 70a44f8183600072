-- ===== src/Database/Store/Handlers.antt =====
-- `StoreMeasurement` of the four handlers: moisture_handler.go, water_level_handler.go,
-- valve_handler.go and room_handler.go. `now` is the one call of `time.Now()`, and `h` the
-- handler's database.
use mqtt_sensor_exporter.Common.{String, List, ◌++◌, Action}
use mqtt_sensor_exporter.Common.Int.{ℤ}
use mqtt_sensor_exporter.Float.{Float64}
use mqtt_sensor_exporter.Payload.{Payload}
use mqtt_sensor_exporter.Database.Gorm.{DbDevice, Row, moisture, water_level, valve, room, Gorm}
use mqtt_sensor_exporter.Database.Store.Chain.{store_chain}
use mqtt_sensor_exporter.Database.Store.Rows.{
  moisture_row, water_level_row, valve_row, room_row, battery_rows, link_quality_rows,
}

module _ {W H F : Type 0} (fl : Float64 F) (g : Gorm W H F) (now : ℤ) where
  abbrev pub battery_and_link : Payload F → DbDevice → List (Row F)
  battery_and_link payload d = battery_rows fl now d payload ++ link_quality_rows fl now d payload

  unfoldable pub store_moisture : String → Payload F → H → Action W (Unit {0})
  store_moisture device_id payload =
      store_chain g "moisture" "failed to store moisture measurement"
        (λ d. moisture (moisture_row fl now d payload)) (battery_and_link payload) device_id payload

  unfoldable pub store_water_level : String → Payload F → H → Action W (Unit {0})
  store_water_level device_id payload =
      store_chain g "water_level" "failed to store water level measurement"
        (λ d. water_level (water_level_row fl now d payload)) (battery_and_link payload) device_id
        payload

  unfoldable pub store_valve : String → Payload F → H → Action W (Unit {0})
  store_valve device_id payload =
      store_chain g "valve" "failed to store valve measurement"
        (λ d. valve (valve_row fl now d payload)) (battery_and_link payload) device_id payload

  -- The room handler keeps no battery rows.
  unfoldable pub store_room : String → Payload F → H → Action W (Unit {0})
  store_room device_id payload =
      store_chain g "room" "failed to store room measurement"
        (λ d. room (room_row fl now d payload)) (λ d. link_quality_rows fl now d payload) device_id
        payload
