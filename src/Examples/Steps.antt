-- ===== src/Examples/Steps.antt =====
-- The theorems on the state machine of the bridges, applied: one bridge connects, loses its
-- connection and gets it back.
use mqtt_sensor_exporter.Common.{◌≡◌, refl, String, true, false, some, List, select}
use mqtt_sensor_exporter.Common.Int.{pos}
use mqtt_sensor_exporter.Common.Dict.{lookup, insert}
use mqtt_sensor_exporter.Mqtt.Types.{State}
use mqtt_sensor_exporter.Mqtt.Options.{login_of}
use mqtt_sensor_exporter.Mqtt.Topics.{is_sensor_topic}
use mqtt_sensor_exporter.Mqtt.Manager as Manager
use mqtt_sensor_exporter.Mqtt.Manager.{
  connect, close_existing, allocate, register, finish, attach, on_connect, on_connection_lost,
  is_connected,
}
use mqtt_sensor_exporter.Mqtt.Steps.{idle, Runs, IsInitial}
use mqtt_sensor_exporter.Mqtt.Steps.Entries.{IsWellFormed}
use mqtt_sensor_exporter.Mqtt.Steps.Invariant.{Runs-IsWellFormed}
use mqtt_sensor_exporter.Mqtt.Steps.Interleavings.{connect-Runs}
use mqtt_sensor_exporter.Mqtt.Steps.Resubscribe.{subscribe_each, reconnect-subscribes}
use mqtt_sensor_exporter.Examples.World.{cluster}
use mqtt_sensor_exporter.Examples.Mqtt.{broker, bridge, empty}

-- The handler came before the client was put into the connection.
abbrev joined : State (List String) (Unit {0})
joined = (connect broker cluster true (pos 1000) bridge empty).0

at_first : IsInitial (idle empty)
at_first = record { no_bridges = refl; no_call = refl }

join : Runs broker cluster (idle empty) (idle joined)
join = connect-Runs broker cluster (pos 1000) bridge empty true

Runs-IsWellFormed_example : IsWellFormed (idle joined)
Runs-IsWellFormed_example = Runs-IsWellFormed broker cluster at_first join

joined_address : lookup "iot/bridge" joined.bridges ≡ some 1
unfolding connect close_existing Manager.open_client login_of attach finish on_connect allocate
    register lookup insert
joined_address = refl

reconnect-subscribes_example :
    (c : Unit {0}) × ((joined.at 1).mqtt_client ≡ some c)
    × (is_connected broker "iot" "bridge" (on_connection_lost broker 1 joined) ≡ false)
    × ((on_connect broker (pos 2000) 1 (on_connection_lost broker 1 joined)).world
        ≡ subscribe_each broker
            (λ w c topic qos. refl)
            c
            (select is_sensor_topic (joined.at 1).bridge.topics)
            joined.world)
    × (is_connected broker "iot" "bridge"
          (on_connect broker (pos 2000) 1 (on_connection_lost broker 1 joined))
        ≡ true)
reconnect-subscribes_example =
    reconnect-subscribes broker (λ w c topic qos. refl) cluster at_first join (pos 2000) "iot"
      "bridge" 1 joined_address (λ c e. refl)
