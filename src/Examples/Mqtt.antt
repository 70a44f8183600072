-- ===== src/Examples/Mqtt.antt =====
-- The theorems on internal/mqtt, applied: a broker whose state is the list of subscribed topics.
use mqtt_sensor_exporter.Common.{◌≡◌, refl, String, true, false, none, some, List, [], ◌∷◌, ok}
use mqtt_sensor_exporter.Common.Dict.{lookup}
use mqtt_sensor_exporter.Common.Int.{pos}
use mqtt_sensor_exporter.Mqtt.Types.{Bridge, BridgeConnection, Paho, State}
use mqtt_sensor_exporter.Mqtt.Options.{login_of, client_options}
use mqtt_sensor_exporter.Mqtt.Topics.{subscribe_to_topics}
use mqtt_sensor_exporter.Mqtt.Manager.{connect, close_existing, is_connected}
use mqtt_sensor_exporter.Mqtt.Manager.Laws.{TableOutcome, connect_table, connect_order}
use mqtt_sensor_exporter.Tasmota.Dispatcher.{MessageHandler}
use mqtt_sensor_exporter.Examples.World.{cluster}

abbrev pub broker : Paho (List String) (Unit {0})
broker = record {
  connect_client = λ w options. (w, ok tt);
  client_connected = λ w c. true;
  disconnect_client = λ w c. [];
  subscribe = λ w c topic qos. (topic ∷ w, ok tt);
}

abbrev pub bridge : Bridge
bridge = record {
  namespace = "iot";
  name = "bridge";
  host = "mqtt.example";
  port = pos 1883;
  client_id = "";
  device_type = "tasmota";
  credentials = none;
  tls = none;
  topics = record { topic = "tele/+/SENSOR"; type = "telemetry"; qos = none } ∷ [];
}

abbrev pub blank : BridgeConnection (Unit {0})
blank = record { bridge = bridge; mqtt_client = none; connected = false; last_seen = pos 0 }

abbrev pub empty : State (List String) (Unit {0})
empty = record { world = []; at = λ a. blank; next = 1; bridges = [] }

connect_table_example :
    let step = connect broker cluster true (pos 1000) bridge empty in
    TableOutcome bridge 1 [] step.1 step.0.bridges
connect_table_example = connect_table broker cluster true (pos 1000) bridge empty

logged : login_of cluster (close_existing broker "iot/bridge" empty).world bridge none ≡ ok ("", "")
unfolding login_of
logged = refl

made :
    broker.connect_client
      (close_existing broker "iot/bridge" empty).world
      (client_options bridge ("", ""))
    ≡ ([], ok tt)
unfolding close_existing lookup
made = refl

connect_order_example :
    ((connect broker cluster false (pos 1000) bridge empty).0.world
      ≡ subscribe_to_topics broker (some tt) bridge.topics [])
    × ((connect broker cluster true (pos 1000) bridge empty).0.world ≡ [])
    × (is_connected broker "iot" "bridge" (connect broker cluster true (pos 1000) bridge empty).0
        ≡ true)
connect_order_example =
    connect_order broker cluster (pos 1000) bridge ("", "") empty [] tt logged made

abbrev silent : MessageHandler (List String)
silent context payload w = (w, ok tt)
