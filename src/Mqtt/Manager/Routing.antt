-- ===== src/Mqtt/Manager/Routing.antt =====
-- The way of an MQTT message to the telemetry handlers.
use mqtt_sensor_exporter.Common.{
  ℕ, ◌≡◌, refl, ap, ◌∙◌, String, Bool, true, false, List, ◌==◌, if◌then◌else◌, ok, Result,
}
use mqtt_sensor_exporter.Common.Int.{ℤ}
use mqtt_sensor_exporter.Mqtt.Types.{BridgeConnection}
use mqtt_sensor_exporter.Mqtt.Manager.{handle_message}
use mqtt_sensor_exporter.Tasmota.Types.{MessageContext}
use mqtt_sensor_exporter.Tasmota.Dispatcher.{
  MessageHandler, new_dispatcher, dispatch, dispatch-new_dispatcher,
}

module _ {W C : Type 0} (telemetry sensor : MessageHandler W) (now : ℤ) where
  -- A message of a bridge changes the world as the handler of its topic's type does, with the
  -- bridge's name and namespace, if the bridge's devices are Tasmota devices and the type is
  -- "telemetry" or "sensor"; every other message changes nothing.
  pub handle_message-dispatch :
      (conn : BridgeConnection C) (type topic : String) (payload : List ℕ) (w : W)
      → let context : MessageContext = record {
        bridge_name = conn.bridge.name;
        bridge_namespace = conn.bridge.namespace;
        topic = topic;
        timestamp = now;
      } in
        handle_message (dispatch (new_dispatcher telemetry sensor) now) conn type topic payload w
        ≡ (if conn.bridge.device_type == "tasmota"
            then (if "telemetry" == type
                then (telemetry context payload w).0
                else if "sensor" == type
                then (sensor context payload w).0
                else w)
            else w)
  unfolding handle_message
  handle_message-dispatch conn type topic payload w =
      let context : MessageContext = record {
        bridge_name = conn.bridge.name;
        bridge_namespace = conn.bridge.namespace;
        topic = topic;
        timestamp = now;
      } in
      ap (λ v. if conn.bridge.device_type == "tasmota" then v else w)
        (ap (λ s. s.0)
            (dispatch-new_dispatcher telemetry sensor now type topic conn.bridge.name
              conn.bridge.namespace payload w)
          ∙ world_of ("telemetry" == type) ("sensor" == type) (telemetry context payload w)
              (sensor context payload w))
    where
      world_of :
          (a b : Bool) (x y : W × Result (Unit {0}))
          → (if a then x else if b then y else (w, ok tt)).0
            ≡ (if a then x.0 else if b then y.0 else w)
      world_of true b x y = refl
      world_of false true x y = refl
      world_of false false x y = refl
