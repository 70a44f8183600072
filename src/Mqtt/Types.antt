-- ===== src/Mqtt/Types.antt =====
-- The resource `MQTTBridge` with the fields that are read, the connection of a bridge, and the
-- calls of the paho client that the manager makes. Neither package is in this repository.
use mqtt_sensor_exporter.Common.{ℕ, String, Bool, Option, List, Result}
use mqtt_sensor_exporter.Common.Dict.{Dict}
use mqtt_sensor_exporter.Common.Int.{ℤ}

pub record TopicSubscription : Type 0 where
  pub topic : String
  pub type : String
  pub qos : Option ℤ

pub record SecretRef : Type 0 where
  pub name : String
  pub namespace : String

pub record TlsSpec : Type 0 where
  pub enabled : Bool
  pub insecure_skip_verify : Bool

pub record Bridge : Type 0 where
  pub namespace : String
  pub name : String
  pub host : String
  pub port : ℤ
  pub client_id : String
  pub device_type : String
  pub credentials : Option SecretRef
  pub tls : Option TlsSpec
  pub topics : List TopicSubscription

-- `BridgeConnection`; a nil client is `none`.
pub record BridgeConnection (C : Type 0) : Type 0 where
  pub bridge : Bridge
  pub mqtt_client : Option C
  pub connected : Bool
  pub last_seen : ℤ

-- The client options that depend on the bridge.
pub record ClientOptions : Type 0 where
  pub broker : String
  pub tls_insecure : Option Bool
  pub login : Option (String × String)
  pub client_id : String

pub record Paho (W C : Type 0) : Type 0 where
  -- `NewClient(opts)`, `Connect()` and `Wait()`
  pub connect_client : W → ClientOptions → W × Result C
  pub client_connected : W → C → Bool
  pub disconnect_client : W → C → W
  -- `Subscribe(topic, qos, handler)` and `Wait()`
  pub subscribe : W → C → String → ℕ → W × Result (Unit {0})

-- Connections are shared by the table and the callbacks: `at` is the memory in which they stand,
-- `next` the first free address, and the field `bridges` holds addresses.
pub record State (W C : Type 0) : Type 0 where
  pub world : W
  pub at : ℕ → BridgeConnection C
  pub next : ℕ
  pub bridges : Dict ℕ
