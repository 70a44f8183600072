-- ===== src/Pipeline.antt =====
-- The way of a message through the program: internal/mqtt hands it to the dispatcher of
-- internal/tasmota, whose telemetry handlers store its measurements through internal/database.
use mqtt_sensor_exporter.Common.{
  ℕ, ◌≡◌, String, Bool, true, false, Option, List, ◌==◌, Result, if◌then◌else◌,
}
use mqtt_sensor_exporter.Common.Order.{IsOrder}
use mqtt_sensor_exporter.Database.Gorm.{Row}
use mqtt_sensor_exporter.Database.Gorm.Laws.{IsLawful}
use mqtt_sensor_exporter.Database.Manager.{Connections}
use mqtt_sensor_exporter.Tasmota.Types.{TelemetryMessage, MessageContext}
use mqtt_sensor_exporter.Tasmota.Dispatcher.{Dispatcher, new_dispatcher, dispatch}
use mqtt_sensor_exporter.Tasmota.Telemetry.{Outside, handle_message}
use mqtt_sensor_exporter.Tasmota.Telemetry.Laws.{MessageOutcome}
use mqtt_sensor_exporter.Mqtt.Types.{BridgeConnection}
use mqtt_sensor_exporter.Mqtt.Manager as Mqtt
use mqtt_sensor_exporter.Mqtt.Manager.Routing.{handle_message-dispatch}

module _ {W H F : Type 0} (o : Outside W H F) (unmarshal : List ℕ → Result (TelemetryMessage F))
    (manager : Option (Connections H)) where
  -- `NewBridgeManager`: the dispatcher for Tasmota devices, whose two handlers share the database
  -- manager.
  unfoldable pub tasmota_dispatcher : Dispatcher W
  tasmota_dispatcher =
      new_dispatcher (handle_message o unmarshal manager) (handle_message o unmarshal manager)

  unfoldable pub receive : {C : Type 0} → BridgeConnection C → String → String → List ℕ → W → W
  receive conn type topic payload w =
      Mqtt.handle_message (dispatch tasmota_dispatcher o.now) conn type topic payload w

  -- The context of a message of the bridge.
  abbrev pub context_of : {C : Type 0} → BridgeConnection C → String → MessageContext
  context_of conn topic = record {
    bridge_name = conn.bridge.name;
    bridge_namespace = conn.bridge.namespace;
    topic = topic;
    timestamp = o.now;
  }

  pub receive-handle_message :
      {C : Type 0} (conn : BridgeConnection C) (type topic : String) (payload : List ℕ) (w : W)
      → receive conn type topic payload w ≡ (
          if conn.bridge.device_type == "tasmota"
          then (if "telemetry" == type
              then (handle_message o unmarshal manager (context_of conn topic) payload w).0
              else if "sensor" == type
              then (handle_message o unmarshal manager (context_of conn topic) payload w).0
              else w)
          else w)
  unfolding receive tasmota_dispatcher
  receive-handle_message conn type topic payload w =
      handle_message-dispatch (handle_message o unmarshal manager)
        (handle_message o unmarshal manager) o.now conn type topic payload w

  module _ (rows : W → H → List (Row F)) (lawful : IsLawful o.gorm rows)
      (order : IsOrder o.visit) where
    -- Whether the message is one for the telemetry handlers, and what it comes to.
    abbrev pub ReceiveOutcome : Bool → MessageContext → List ℕ → W → W → Type 0
    ReceiveOutcome false context payload w w' = w' ≡ w
    ReceiveOutcome true context payload w w' =
        (r : Result (Unit {0})) × MessageOutcome o rows lawful order manager context
          (unmarshal payload) w (w', r)
