-- ===== src/Tasmota/Telemetry.antt =====
-- internal/tasmota/telemetry_handler.go: a telemetry message, device by device. `manager` is the
-- handler's `dbManager`: nil, or its connections. `json.Unmarshal` into a `TelemetryMessage` is the
-- argument `unmarshal`, and `visit` and `visit_devices` are the orders in which the runtime visits
-- the connections and the devices of a message.
pub mod Laws
use mqtt_sensor_exporter.Common.{
  ℕ, String, Bool, Option, none, some, List, [], ◌∷◌, ◌==◌, not, if◌then◌else◌, find, Error, Result,
  ok, err, Action,
}
use mqtt_sensor_exporter.Common.Dict.{Dict}
use mqtt_sensor_exporter.Common.Int.{ℤ}
use mqtt_sensor_exporter.Float.{Float64}
use mqtt_sensor_exporter.Kube.{Device, Cluster}
use mqtt_sensor_exporter.Database.Gorm.{Gorm}
use mqtt_sensor_exporter.Database.Manager.{Connections}
use mqtt_sensor_exporter.Database.Manager as Manager
use mqtt_sensor_exporter.Tasmota.Types.{ZigbeeDevice, TelemetryMessage, MessageContext}
use mqtt_sensor_exporter.Tasmota.Build.{build_payload}

-- The outside world of the handler, put together.
pub record Outside (W H F : Type 0) : Type 0 where
  pub float64 : Float64 F
  pub gorm : Gorm W H F
  pub cluster : Cluster W
  pub now : ℤ
  pub visit : Connections H → Connections H
  pub visit_devices : Dict (ZigbeeDevice F) → Dict (ZigbeeDevice F)

module _ {W H F : Type 0} (o : Outside W H F) where
  -- The last part of `storeMeasurement`.
  unfoldable pub store_measurement : Connections H → Device → ZigbeeDevice F → Action W (Unit {0})
  store_measurement conns device zb =
      Manager.store_measurement o.float64 o.gorm o.now o.visit conns device.name device.sensor_type
        (build_payload o.float64 device zb)

  unfoldable pub update_device :
      Option (Connections H) → Device → ZigbeeDevice F → Action W (Unit {0})
  update_device none device zb w = (w, ok tt)
  update_device (some conns) device zb w =
      if not (device.sensor_type == "") then store_measurement conns device zb w else (w, ok tt)

  -- After the loop over the devices of the namespace.
  unfoldable pub update_found :
      Option (Connections H) → Option Device → ZigbeeDevice F → Action W (Unit {0})
  update_found manager none zb w = (w, ok tt)
  update_found manager (some device) zb w = update_device manager device zb w

  unfoldable pub update_listed :
      Option (Connections H) → Result (List Device) → String → ZigbeeDevice F → Action W (Unit {0})
  update_listed manager (err e) short_addr zb w = (w, err e)
  update_listed manager (ok devices) short_addr zb w =
      update_found manager (find (λ d. d.short_addr == short_addr) devices) zb w

  unfoldable pub process_zigbee_device :
      Option (Connections H) → String → String → ZigbeeDevice F → Action W (Unit {0})
  process_zigbee_device manager namespace short_addr zb w =
      update_listed manager (o.cluster.list_devices w namespace) short_addr zb w

  -- The loop: an error of one device is only logged.
  unfoldable pub process_all : Option (Connections H) → String → Dict (ZigbeeDevice F) → W → W
  process_all manager namespace [] w = w
  process_all manager namespace ((short_addr, zb) ∷ rest) w =
      process_all manager namespace rest (process_zigbee_device manager namespace short_addr zb w).0

  unfoldable pub handle_decoded :
      Option (Connections H) → MessageContext → Result (TelemetryMessage F) → Action W (Unit {0})
  handle_decoded manager context (err e) w = (w, err e)
  handle_decoded manager context (ok msg) w =
      (process_all manager context.bridge_namespace (o.visit_devices msg.zb_received) w, ok tt)

  unfoldable pub handle_message :
      (List ℕ → Result (TelemetryMessage F))
      → Option (Connections H)
      → MessageContext
      → List ℕ
      → Action W (Unit {0})
  handle_message unmarshal manager context payload =
      handle_decoded manager context (unmarshal payload)
