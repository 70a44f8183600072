-- ===== src/Tasmota/Types.antt =====
-- internal/tasmota/types.go: the messages that the program decodes. `*T` is `Option`.
use mqtt_sensor_exporter.Common.{String, Bool, Option}
use mqtt_sensor_exporter.Common.Dict.{Dict}
use mqtt_sensor_exporter.Common.Int.{ℤ}

pub record ZigbeeDevice (F : Type 0) : Type 0 where
  pub device : String
  pub name : String
  pub power : Option ℤ
  pub endpoint : Option ℤ
  pub link_quality : Option ℤ
  pub battery_percentage : Option ℤ
  pub temperature : Option F
  pub humidity : Option F
  pub pressure : Option F
  pub voltage : Option F
  pub contact : Option Bool
  pub occupancy : Option Bool
  pub water_leak : Option Bool
  pub water_level : Option ℤ
  pub last_valve_open_duration : Option ℤ
  pub irrigation_start_time : Option ℤ
  pub irrigation_end_time : Option ℤ
  pub daily_irrigation_volume : Option ℤ

-- `zb_received` is keyed by the short address.
pub record TelemetryMessage (F : Type 0) : Type 0 where
  pub time : String
  pub zb_received : Dict (ZigbeeDevice F)

pub record MessageContext : Type 0 where
  pub bridge_name : String
  pub bridge_namespace : String
  pub topic : String
  pub timestamp : ℤ
