-- ===== src/Database/Store/Rows.antt =====
-- The rows that the storage handlers build from a payload: moisture_handler.go,
-- water_level_handler.go, valve_handler.go and room_handler.go. `int(x)` and `int64(x)` are the
-- same on a 64-bit machine.
use mqtt_sensor_exporter.Common.{Option, none, some, List, [], ◌∷◌}
use mqtt_sensor_exporter.Common.Int.{ℤ}
use mqtt_sensor_exporter.Float.{Float64}
use mqtt_sensor_exporter.Payload.{Payload, float_at}
use mqtt_sensor_exporter.Database.Gorm.{
  DbDevice, MoistureMeasurement, WaterLevelMeasurement, ValveMeasurement, RoomMeasurement, Row,
  battery, link_quality,
}

module _ {F : Type 0} (fl : Float64 F) where
  abbrev pub int_of : Option F → Option ℤ
  int_of none = none
  int_of (some x) = some (fl.to_int x)

  unfoldable pub moisture_row : ℤ → DbDevice → Payload F → MoistureMeasurement F
  moisture_row now device payload = record {
    timestamp = now;
    device_id = device.id;
    temperature = float_at "Temperature" payload;
    humidity = float_at "Humidity" payload;
    endpoint = int_of (float_at "Endpoint" payload);
  }

  unfoldable pub water_level_row : ℤ → DbDevice → Payload F → WaterLevelMeasurement
  water_level_row now device payload = record {
    timestamp = now;
    device_id = device.id;
    level = int_of (float_at "WaterLevel" payload);
    endpoint = int_of (float_at "Endpoint" payload);
  }

  unfoldable pub valve_row : ℤ → DbDevice → Payload F → ValveMeasurement
  valve_row now device payload = record {
    timestamp = now;
    device_id = device.id;
    power = int_of (float_at "Power" payload);
    last_valve_open_duration = int_of (float_at "LastValveOpenDuration" payload);
    irrigation_start_time = int_of (float_at "IrrigationStartTime" payload);
    irrigation_end_time = int_of (float_at "IrrigationEndTime" payload);
    daily_irrigation_volume = int_of (float_at "DailyIrrigationVolume" payload);
    endpoint = int_of (float_at "Endpoint" payload);
  }

  unfoldable pub room_row : ℤ → DbDevice → Payload F → RoomMeasurement F
  room_row now device payload = record {
    timestamp = now;
    device_id = device.id;
    temperature = float_at "Temperature" payload;
    humidity = float_at "Humidity" payload;
    endpoint = int_of (float_at "Endpoint" payload);
  }

  unfoldable pub battery_rows : ℤ → DbDevice → Payload F → List (Row F)
  battery_rows now device payload = elim (float_at "BatteryPercentage" payload) [
    | none ↦ []
    | some x ↦
        battery
          (record { timestamp = now; device_id = device.id; battery_percentage = fl.to_int x })
        ∷ []
  ]

  unfoldable pub link_quality_rows : ℤ → DbDevice → Payload F → List (Row F)
  link_quality_rows now device payload = elim (float_at "LinkQuality" payload) [
    | none ↦ []
    | some x ↦
        link_quality (record { timestamp = now; device_id = device.id; link_quality = fl.to_int x })
        ∷ []
  ]
