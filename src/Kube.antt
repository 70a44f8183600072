-- ===== src/Kube.antt =====
-- The custom resources of `kubernetes-iot-api`, with the fields that this program reads, and the
-- read operations of the controller-runtime client. That package is not in this repository.
use mqtt_sensor_exporter.Common.{String, Bool, Option, List, Result}
use mqtt_sensor_exporter.Common.Dict.{Dict}
use mqtt_sensor_exporter.Common.Int.{ℤ}

pub record AlertCondition : Type 0 where
  pub measurement : String
  pub operator : String
  pub value : String

-- A `Device`: `Name`, its `Spec` and the one field of `Status` that is read.
pub record Device : Type 0 where
  pub name : String
  pub friendly_name : String
  pub ieee_addr : String
  pub sensor_type : String
  pub location : String
  pub room : String
  pub disabled : Bool
  pub corrections : Option (Dict String)
  pub alert_condition : Option AlertCondition
  pub short_addr : String

-- A `Database`: a secret reference is the secret's name.
pub record Database : Type 0 where
  pub namespace : String
  pub name : String
  pub generation : ℤ
  pub host : String
  pub port : ℤ
  pub database : String
  pub username : String
  pub password_secret : Option String
  pub ssl_mode : String
  pub ca_secret : Option String
  pub client_cert_secret : Option String
  pub max_connections : Option ℤ
  pub min_connections : Option ℤ
  pub supported_sensor_types : List String

-- `client.List` in one namespace and in all, and the data of a secret by namespace and name.
pub record Cluster (W : Type 0) : Type 0 where
  pub list_devices : W → String → Result (List Device)
  pub list_all_devices : W → Result (List Device)
  pub get_secret : W → String → String → Result (Dict String)
