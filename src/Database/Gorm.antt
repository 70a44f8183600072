-- ===== src/Database/Gorm.antt =====
-- The tables of `database-iot-gorm` and the calls of `gorm` that the program makes. Neither package
-- is in this repository: the tables are the fields that the program sets, and the calls are the
-- fields of a record over an unknown world `W` and database handles `H` (a `*gorm.DB`).
pub mod Laws
use mqtt_sensor_exporter.Common.{ℕ, String, Option, List, Error, Result}
use mqtt_sensor_exporter.Common.Int.{ℤ}

-- `databaseiotgorm.Device`; `id` is the primary key, set by the database.
pub record DbDevice : Type 0 where
  pub id : ℕ
  pub device_id : String
  pub sensor_type : String
  pub device_name : String
  pub short_addr : String
  pub ieee_addr : String

pub record MoistureMeasurement (F : Type 0) : Type 0 where
  pub timestamp : ℤ
  pub device_id : ℕ
  pub temperature : Option F
  pub humidity : Option F
  pub endpoint : Option ℤ

pub record WaterLevelMeasurement : Type 0 where
  pub timestamp : ℤ
  pub device_id : ℕ
  pub level : Option ℤ
  pub endpoint : Option ℤ

pub record ValveMeasurement : Type 0 where
  pub timestamp : ℤ
  pub device_id : ℕ
  pub power : Option ℤ
  pub last_valve_open_duration : Option ℤ
  pub irrigation_start_time : Option ℤ
  pub irrigation_end_time : Option ℤ
  pub daily_irrigation_volume : Option ℤ
  pub endpoint : Option ℤ

pub record RoomMeasurement (F : Type 0) : Type 0 where
  pub timestamp : ℤ
  pub device_id : ℕ
  pub temperature : Option F
  pub humidity : Option F
  pub endpoint : Option ℤ

pub record Battery : Type 0 where
  pub timestamp : ℤ
  pub device_id : ℕ
  pub battery_percentage : ℤ

pub record LinkQuality : Type 0 where
  pub timestamp : ℤ
  pub device_id : ℕ
  pub link_quality : ℤ

-- A row of one of the measurement tables.
pub data Row (F : Type 0) : Type 0 where
  moisture : MoistureMeasurement F → Row F
  water_level : WaterLevelMeasurement → Row F
  valve : ValveMeasurement → Row F
  room : RoomMeasurement F → Row F
  battery : Battery → Row F
  link_quality : LinkQuality → Row F

-- The outcome of `First`: a record, `gorm.ErrRecordNotFound`, or another error.
pub data Lookup (A : Type 0) : Type 0 where
  found : A → Lookup A
  not_found : Lookup A
  failed : Error → Lookup A

pub record Gorm (W H F : Type 0) : Type 0 where
  -- `Where("device_id = ?", id).First(&device)`
  pub first_device : W → H → String → Lookup DbDevice
  -- `Create(&device)`, with the device as the call leaves it.
  pub create_device : W → H → DbDevice → W × Result DbDevice
  -- `Save(&device)`
  pub save_device : W → H → DbDevice → W × Result (Unit {0})
  -- `Create(measurement)`
  pub create : W → H → Row F → W × Result (Unit {0})
