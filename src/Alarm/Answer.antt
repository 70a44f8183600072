-- ===== src/Alarm/Answer.antt =====
-- From a message of a bridge to the answer of the API.
use mqtt_sensor_exporter.Common.{
  ℕ, ◌≡◌, String, ◌==◌, true, ◌||◌, some, List, [], ◌∷◌, All, find, Result, ok,
}
use mqtt_sensor_exporter.Common.Int.{ℤ}
use mqtt_sensor_exporter.Common.Order.{IsOrder}
use mqtt_sensor_exporter.Kube.{Device, AlertCondition}
use mqtt_sensor_exporter.Database.Gorm.{DbDevice, Row, Lookup}
use mqtt_sensor_exporter.Database.Gorm.Laws.{IsLawful}
use mqtt_sensor_exporter.Database.Kind.{kind}
use mqtt_sensor_exporter.Database.Manager.{Connections, get_db_for_sensor_type}
use mqtt_sensor_exporter.Database.Manager.Ready.{IsReady}
use mqtt_sensor_exporter.Tasmota.Types.{ZigbeeDevice, TelemetryMessage}
use mqtt_sensor_exporter.Tasmota.Build.{build_payload}
use mqtt_sensor_exporter.Tasmota.Telemetry.{Outside}
use mqtt_sensor_exporter.Mqtt.Types.{BridgeConnection}
use mqtt_sensor_exporter.Api.Filters.{AlertFilters}
use mqtt_sensor_exporter.Api.Measure.{Average, Averages, table_of, get_measurement_column}
use mqtt_sensor_exporter.Api.Alerts.{AlertDevice, alert_of, get_triggered_alerts}
use mqtt_sensor_exporter.Alarm.Readings.{ReadsRows}
use mqtt_sensor_exporter.Alarm.Kept.{IsShared}
use mqtt_sensor_exporter.Alarm.Measured.{value_of}
use mqtt_sensor_exporter.Alarm.Laws.{IsWatched}

module _ {W H F : Type 0} (o : Outside W H F) (unmarshal : List ℕ → Result (TelemetryMessage F))
    (conns : Connections H) where
  -- A message of one device, whose resource is `d`: what it leaves is what storing it leaves.
  pub record IsReport {C : Type 0} (conn : BridgeConnection C) (type : String) (payload : List ℕ)
      (w : W) (d : Device) (zb : ZigbeeDevice F) : Type 0 where
    pub tasmota : conn.bridge.device_type ≡ "tasmota"
    pub measured : ("telemetry" == type || "sensor" == type) ≡ true
    pub msg : TelemetryMessage F
    pub decoded : unmarshal payload ≡ ok msg
    pub short_addr : String
    pub single : msg.zb_received ≡ (short_addr, zb) ∷ []
    pub devices : List Device
    pub listed : o.cluster.list_devices w conn.bridge.namespace ≡ ok devices
    pub known : find (λ e. e.short_addr == short_addr) devices ≡ some d

module _ {W H F : Type 0} (o : Outside W H F) (unmarshal : List ℕ → Result (TelemetryMessage F))
    (scan : W → H → String → String → ℕ → ℤ → Lookup (Average F)) where
  -- The service reads from the database that the handlers write to.
  abbrev pub averages : Averages W H F
  averages = record { gorm = o.gorm; scan_average = scan }

  module _ (rows : W → H → List (Row F)) (lawful : IsLawful o.gorm rows)
      (saves : (w : W) (h : H) (d : DbDevice) → (o.gorm.save_device w h d).1 ≡ ok tt)
      (reads : ReadsRows o.float64 averages rows) (conns : Connections H)
      (ready : All (λ e. IsReady e.1) conns) (visit' : Device → Connections H → Connections H)
      (order : IsOrder o.visit) (order' : (e : Device) → IsOrder (visit' e))
      (orders : IsOrder o.visit_devices) (d : Device) (c : AlertCondition) (h : H)
      (shared : IsShared d.sensor_type h conns) (table : String)
      (supported : table_of (kind d.sensor_type) ≡ some table) (zb : ZigbeeDevice F) (x : F)
      (reported : value_of o.float64
          (kind d.sensor_type)
          (get_measurement_column c.measurement)
          (build_payload o.float64 d zb)
        ≡ some x)
      (fs : AlertFilters) (watched : IsWatched fs d c) (listing : ℤ) (clock : Device → ℤ) where
    -- What the service answers in a world.
    abbrev pub answer : W → Result (List (AlertDevice F))
    answer w =
        get_triggered_alerts o.float64 averages (λ e t. get_db_for_sensor_type (visit' e) t conns)
          listing clock fs w o.cluster

    abbrev pub alarm_of : DbDevice → AlertDevice F
    alarm_of stored =
        alert_of o.float64 d c stored (record { avg_value = x; last_timestamp = o.now })
