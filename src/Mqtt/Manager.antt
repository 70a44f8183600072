-- ===== src/Mqtt/Manager.antt =====
-- internal/mqtt/manager.go: the manager of the bridges. Paho runs the handler that `Connect`
-- registers in a goroutine of its own; `early` says whether that handler reads the connection
-- before `Connect` has put the client into it. The clock stands still during a call, at `now`.
pub mod Laws
pub mod Routing
use mqtt_sensor_exporter.Common.{
  ℕ, suc, String, ◌<>◌, Bool, true, false, not, ◌&&◌, ◌||◌, Option, none, some, List, ◌==◌,
  if◌then◌else◌, eqb, Error, Result, ok, err, wrapped, Action,
}
use mqtt_sensor_exporter.Common.Dict.{Dict, lookup, insert, erase}
use mqtt_sensor_exporter.Common.Int.{ℤ, pos}
use mqtt_sensor_exporter.Kube.{Cluster}
use mqtt_sensor_exporter.Mqtt.Types.{Bridge, BridgeConnection, ClientOptions, Paho, State}
use mqtt_sensor_exporter.Mqtt.Options.{login_of, client_options}
use mqtt_sensor_exporter.Mqtt.Topics.{subscribe_to_topics}

abbrev pub key : String → String → String
key namespace name = namespace <> "/" <> name

-- A write through a pointer.
abbrev pub set_at : {A : Type 0} → ℕ → A → (ℕ → A) → ℕ → A
set_at address value at j = if eqb j address then value else at j

module _ {W C : Type 0} (paho : Paho W C) where
  -- `client != nil && client.IsConnected()`
  abbrev pub is_up : W → Option C → Bool
  is_up w none = false
  is_up w (some c) = paho.client_connected w c

  unfoldable pub close_client : Option C → W → W
  close_client none w = w
  close_client (some c) w = if paho.client_connected w c then paho.disconnect_client w c else w

  abbrev close_at : Option ℕ → State W C → W
  close_at none s = s.world
  close_at (some a) s = close_client (s.at a).mqtt_client s.world

  -- The connection under a key is closed, and stays in the table.
  unfoldable pub close_existing : String → State W C → State W C
  close_existing k s = record s { world = close_at (lookup k s.bridges) s }

  unfoldable pub on_connect : ℤ → ℕ → State W C → State W C
  on_connect now a s =
      let conn = record (s.at a) { connected = true; last_seen = now } in
      record s {
        world = subscribe_to_topics paho conn.mqtt_client conn.bridge.topics s.world;
        at = set_at a conn s.at;
      }

  unfoldable pub on_connection_lost : ℕ → State W C → State W C
  on_connection_lost a s = record s { at = set_at a (record (s.at a) { connected = false }) s.at }

  -- `bridgeConn := &BridgeConnection{bridge: bridge}`, at the next address.
  unfoldable pub allocate : Bridge → State W C → State W C
  allocate bridge s =
      let conn : BridgeConnection C = record {
        bridge = bridge;
        mqtt_client = none;
        connected = false;
        last_seen = pos 0;
      } in
      record s { at = set_at s.next conn s.at; next = suc s.next }

  -- The assignments after the client has connected.
  unfoldable pub register : ℤ → Bridge → ℕ → C → State W C → State W C
  register now bridge a c s =
      let conn = record (s.at a) { mqtt_client = some c; connected = true; last_seen = now } in
      record s {
        at = set_at a conn s.at;
        bridges = insert (key bridge.namespace bridge.name) a s.bridges;
      }

  -- The end of a successful `Connect` and the handler, in one of the two orders.
  unfoldable pub finish : Bool → ℤ → Bridge → ℕ → C → State W C → State W C
  finish true now bridge a c s = register now bridge a c (on_connect now a s)
  finish false now bridge a c s = on_connect now a (register now bridge a c s)

  unfoldable pub attach :
      Bool → ℤ → Bridge → ℕ → State W C → Result C → State W C × Result (Unit {0})
  attach early now bridge a s (err e) = (s, err e)
  attach early now bridge a s (ok c) = (finish early now bridge a c s, ok tt)

  unfoldable pub open_client :
      Bool → ℤ → Bridge → Result (String × String) → Action (State W C) (Unit {0})
  open_client early now bridge (err e) s = (s, err e)
  open_client early now bridge (ok login) s =
      let s₁ = allocate bridge s in
      let step = paho.connect_client s.world (client_options bridge login) in
      attach early now bridge s.next (record s₁ { world = step.0 })
        (wrapped "failed to connect to MQTT broker" step.1)

  unfoldable pub connect : Cluster W → Bool → ℤ → Bridge → Action (State W C) (Unit {0})
  connect cluster early now bridge s =
      let s₁ = close_existing (key bridge.namespace bridge.name) s in
      open_client early now bridge (login_of cluster s₁.world bridge bridge.credentials) s₁

  abbrev pub forget : String → Option ℕ → State W C → State W C
  forget k none s = s
  forget k (some a) s = record s {
    world = close_client (s.at a).mqtt_client s.world;
    bridges = erase k s.bridges;
  }

  unfoldable pub disconnect : String → String → State W C → State W C
  disconnect namespace name s =
      forget (key namespace name) (lookup (key namespace name) s.bridges) s

  abbrev pub up_at : Option ℕ → State W C → Bool
  up_at none s = false
  up_at (some a) s = (s.at a).connected && is_up s.world (s.at a).mqtt_client

  unfoldable pub is_connected : String → String → State W C → Bool
  is_connected namespace name s = up_at (lookup (key namespace name) s.bridges) s

-- A message goes to the dispatcher of Tasmota devices, whose error is only logged; messages of
-- other devices are dropped.
unfoldable pub handle_message :
    {W C : Type 0}
    → (String → String → String → String → List ℕ → Action W (Unit {0}))
    → BridgeConnection C
    → String
    → String
    → List ℕ
    → W
    → W
handle_message dispatch conn type topic payload w =
    if conn.bridge.device_type == "tasmota"
    then (dispatch type topic conn.bridge.name conn.bridge.namespace payload w).0
    else w
