-- ===== src/Database/Store/Chain.antt =====
-- The order of the writes in every `StoreMeasurement`.
pub mod Laws
pub mod Parts
pub mod Again
use mqtt_sensor_exporter.Common.{String, List, [], ◌∷◌, ok, Action, with_context, ◌>>=◌, ◌>>◌}
use mqtt_sensor_exporter.Payload.{Payload}
use mqtt_sensor_exporter.Database.Gorm.{DbDevice, Row, Gorm}
use mqtt_sensor_exporter.Database.Store.Device.{ensure_device}

module _ {W H F : Type 0} (g : Gorm W H F) where
  -- `Create` of the measurement, whose error is returned.
  unfoldable pub create_measurement : String → H → Row F → Action W (Unit {0})
  create_measurement text h row w = with_context text (g.create w h row)

  -- `Create` of rows whose errors are only logged.
  unfoldable pub create_logged : H → List (Row F) → Action W (Unit {0})
  create_logged h [] w = (w, ok tt)
  create_logged h (row ∷ rows) w = create_logged h rows (g.create w h row).0

  -- `row` and `extras` are the rows for the device that was found or created.
  unfoldable pub store_chain :
      String
      → String
      → (DbDevice → Row F)
      → (DbDevice → List (Row F))
      → String
      → Payload F
      → H
      → Action W (Unit {0})
  store_chain sensor_type text row extras device_id payload h = do
    device ← ensure_device g sensor_type device_id payload h
    create_measurement text h (row device)
    create_logged h (extras device)
