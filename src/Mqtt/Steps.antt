-- ===== src/Mqtt/Steps.antt =====
-- internal/mqtt/manager.go as a state machine. The manager's lock makes `Connect` and `Disconnect`
-- exclude one another; the handlers of paho take no such lock, so they run between any two steps of
-- a `Connect`, on any connection that was ever made, as often as paho reconnects.
pub mod Entries
pub mod Moves
pub mod Invariant
pub mod Interleavings
pub mod Resubscribe
use mqtt_sensor_exporter.Common.{ℕ, ◌<◌, ◌≡◌, String, true, Option, none, some, [], ok, err, Error}
use mqtt_sensor_exporter.Common.Int.{ℤ}
use mqtt_sensor_exporter.Kube.{Cluster}
use mqtt_sensor_exporter.Mqtt.Types.{Bridge, Paho, State}
use mqtt_sensor_exporter.Mqtt.Options.{login_of, client_options}
use mqtt_sensor_exporter.Mqtt.Manager.{
  key, close_existing, on_connect, on_connection_lost, allocate, register, connect, disconnect,
}

-- A `Connect` whose client has connected and is not yet put into the connection.
pub record Opening (C : Type 0) : Type 0 where
  pub bridge : Bridge
  pub address : ℕ
  pub client : C

pub record Machine (W C : Type 0) : Type 0 where
  pub state : State W C
  pub opening : Option (Opening C)

-- No call holds the lock, and a `Connect` holds it.
abbrev pub idle : {W C : Type 0} → State W C → Machine W C
idle s = record { state = s; opening = none }

abbrev pub busy : {W C : Type 0} → Opening C → State W C → Machine W C
busy o s = record { state = s; opening = some o }

-- The state when a `Connect` has closed the old client.
abbrev pub closed_for : {W C : Type 0} → Paho W C → Bridge → State W C → State W C
closed_for paho bridge s = close_existing paho (key bridge.namespace bridge.name) s

-- The state when the client of a `Connect` has connected and left the world `w`.
abbrev pub opened_with : {W C : Type 0} → Paho W C → Bridge → W → State W C → State W C
opened_with paho bridge w s = record (allocate paho bridge (closed_for paho bridge s)) { world = w }

pub data Step {W C : Type 0} (paho : Paho W C) (cluster : Cluster W)
    : Machine W C → Machine W C → Type 0 where
  open_client :
      (s : State W C) (bridge : Bridge) (login : String × String) (w : W) (c : C)
      → login_of cluster (closed_for paho bridge s).world bridge bridge.credentials ≡ ok login
      → paho.connect_client (closed_for paho bridge s).world (client_options bridge login)
        ≡ (w, ok c)
      → Step paho cluster (idle s) (
          busy
            (record { bridge = bridge; address = s.next; client = c })
            (opened_with paho bridge w s))
  fail_connect :
      (s : State W C) (bridge : Bridge) (now : ℤ) (e : Error)
      → (connect paho cluster true now bridge s).1 ≡ err e
      → Step paho cluster (idle s) (idle (connect paho cluster true now bridge s).0)
  end_connect :
      (s : State W C) (o : Opening C) (now : ℤ)
      → Step paho cluster (busy o s) (idle (register paho now o.bridge o.address o.client s))
  handle_connect :
      (m : Machine W C) (now : ℤ) (a : ℕ)
      → a < m.state.next
      → Step paho cluster m (record m { state = on_connect paho now a m.state })
  handle_lost :
      (m : Machine W C) (a : ℕ)
      → a < m.state.next
      → Step paho cluster m (record m { state = on_connection_lost paho a m.state })
  disconnect_bridge :
      (s : State W C) (namespace name : String)
      → Step paho cluster (idle s) (idle (disconnect paho namespace name s))
  -- Anything else that changes the world.
  go_on :
      (m : Machine W C) (w : W)
      → Step paho cluster m (record m { state = record m.state { world = w } })

pub data Runs {W C : Type 0} (paho : Paho W C) (cluster : Cluster W) (m : Machine W C)
    : Machine W C → Type 0 where
  start : Runs paho cluster m m
  then_step :
      {n k : Machine W C} → Runs paho cluster m n → Step paho cluster n k → Runs paho cluster m k

-- `NewBridgeManager`: no bridge in the table, whatever stands in the memory that is not yet in use.
pub record IsInitial {W C : Type 0} (m : Machine W C) : Type 0 where
  pub no_bridges : m.state.bridges ≡ []
  pub no_call : m.opening ≡ none
