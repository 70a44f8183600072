-- ===== src/Tasmota/Build/Rows.antt =====
-- The way of a measurement through the payload: what the storage handlers read of a built payload
-- is what the sensor reported, with its corrections.
use mqtt_sensor_exporter.Common.{◌≡◌, refl, ◌∙◌, ap, String, Option, none, some}
use mqtt_sensor_exporter.Common.Dict.{lookup}
use mqtt_sensor_exporter.Common.Int.{ℤ}
use mqtt_sensor_exporter.Float.{Float64, IsExact, InMantissa}
use mqtt_sensor_exporter.Kube.{Device}
use mqtt_sensor_exporter.Payload.{Payload, as_float, float_at}
use mqtt_sensor_exporter.Database.Gorm.{DbDevice}
use mqtt_sensor_exporter.Database.Store.Rows.{
  int_of, moisture_row, water_level_row, valve_row, room_row,
}
use mqtt_sensor_exporter.Tasmota.Types.{ZigbeeDevice}
use mqtt_sensor_exporter.Tasmota.Corrections.{apply_correction_to_float}
use mqtt_sensor_exporter.Tasmota.Build.{
  int_value, corrected, corrected_int, assignments, build_payload,
}
use mqtt_sensor_exporter.Tasmota.Build.Laws.{or_old-none, lookup-build_payload}

abbrev pub Fits : Option ℤ → Type 0
Fits none = Unit
Fits (some n) = InMantissa n

module _ {F : Type 0} (fl : Float64 F) (device : Device) where
  -- A reported number with its correction.
  abbrev pub corrected_float : String → Option F → Option F
  corrected_float key none = none
  corrected_float key (some x) = some (apply_correction_to_float fl x key (some device))

  as_float-corrected :
      (key : String) (x : Option F) → as_float (corrected fl device key x) ≡ corrected_float key x
  as_float-corrected key none = refl
  as_float-corrected key (some x) = refl

  -- The whole numbers of a message that a handler stores, with their corrections, have at most 53
  -- bits.
  pub record IsRepresentable (zb : ZigbeeDevice F) : Type 0 where
    pub fits_endpoint : Fits zb.endpoint
    pub fits_power : Fits (corrected_int fl device "power" zb.power)
    pub fits_battery : Fits (corrected_int fl device "battery_percentage" zb.battery_percentage)
    pub fits_link : Fits (corrected_int fl device "link_quality" zb.link_quality)
    pub fits_level : Fits (corrected_int fl device "water_level" zb.water_level)
    pub fits_duration :
        Fits (corrected_int fl device "last_valve_open_duration" zb.last_valve_open_duration)
    pub fits_start : Fits zb.irrigation_start_time
    pub fits_end : Fits zb.irrigation_end_time
    pub fits_volume :
        Fits (corrected_int fl device "daily_irrigation_volume" zb.daily_irrigation_volume)

int_of-int_value :
    {F : Type 0} (fl : Float64 F)
    → IsExact fl
    → (n : Option ℤ) → Fits n
    → int_of fl (as_float (int_value fl n)) ≡ n
int_of-int_value fl exact none h = refl
int_of-int_value fl exact (some n) h = ap some (exact.to_int-of_int n h)

module _ {F : Type 0} (fl : Float64 F) (exact : IsExact fl) (device : Device) (zb : ZigbeeDevice F)
    (fits : IsRepresentable fl device zb) where
  abbrev payload : Payload F
  payload = build_payload fl device zb

  float_temperature :
      float_at "Temperature" payload ≡ corrected_float fl device "temperature" zb.temperature
  unfolding float_at assignments
  float_temperature =
      ap as_float (lookup-build_payload fl device zb "Temperature" ∙ or_old-none _)
      ∙ as_float-corrected fl device "temperature" zb.temperature

  float_humidity : float_at "Humidity" payload ≡ corrected_float fl device "humidity" zb.humidity
  unfolding float_at assignments
  float_humidity =
      ap as_float (lookup-build_payload fl device zb "Humidity" ∙ or_old-none _)
      ∙ as_float-corrected fl device "humidity" zb.humidity

  -- A whole number under its key.
  int_lem :
      (key : String) (n : Option ℤ)
      → lookup key payload ≡ int_value fl n
      → Fits n
      → int_of fl (float_at key payload) ≡ n
  unfolding float_at
  int_lem key n e h = ap (λ v. int_of fl (as_float v)) e ∙ int_of-int_value fl exact n h

  int_endpoint : int_of fl (float_at "Endpoint" payload) ≡ zb.endpoint
  unfolding assignments
  int_endpoint =
      int_lem "Endpoint" zb.endpoint (lookup-build_payload fl device zb "Endpoint" ∙ or_old-none _)
        fits.fits_endpoint

  int_power : int_of fl (float_at "Power" payload) ≡ corrected_int fl device "power" zb.power
  unfolding assignments
  int_power =
      int_lem "Power" _ (lookup-build_payload fl device zb "Power" ∙ or_old-none _) fits.fits_power

  int_level :
      int_of fl (float_at "WaterLevel" payload)
      ≡ corrected_int fl device "water_level" zb.water_level
  unfolding assignments
  int_level =
      int_lem "WaterLevel" _ (lookup-build_payload fl device zb "WaterLevel" ∙ or_old-none _)
        fits.fits_level

  int_duration :
      int_of fl (float_at "LastValveOpenDuration" payload)
      ≡ corrected_int fl device "last_valve_open_duration" zb.last_valve_open_duration
  unfolding assignments
  int_duration =
      int_lem "LastValveOpenDuration" _
        (lookup-build_payload fl device zb "LastValveOpenDuration" ∙ or_old-none _)
        fits.fits_duration

  int_start : int_of fl (float_at "IrrigationStartTime" payload) ≡ zb.irrigation_start_time
  unfolding assignments
  int_start =
      int_lem "IrrigationStartTime" _
        (lookup-build_payload fl device zb "IrrigationStartTime" ∙ or_old-none _) fits.fits_start

  int_end : int_of fl (float_at "IrrigationEndTime" payload) ≡ zb.irrigation_end_time
  unfolding assignments
  int_end =
      int_lem "IrrigationEndTime" _
        (lookup-build_payload fl device zb "IrrigationEndTime" ∙ or_old-none _) fits.fits_end

  int_volume :
      int_of fl (float_at "DailyIrrigationVolume" payload)
      ≡ corrected_int fl device "daily_irrigation_volume" zb.daily_irrigation_volume
  unfolding assignments
  int_volume =
      int_lem "DailyIrrigationVolume" _
        (lookup-build_payload fl device zb "DailyIrrigationVolume" ∙ or_old-none _) fits.fits_volume

  -- When `float64` is exact up to 53 bits and the message's corrected numbers have no more: the
  -- valve row of a built payload holds what the sensor reported, corrected where there is a
  -- correction: no whole number is changed by the way through `float64`.
  pub valve_row-build_payload :
      (now : ℤ) (d : DbDevice)
      → valve_row fl now d payload ≡ record {
        timestamp = now;
        device_id = d.id;
        power = corrected_int fl device "power" zb.power;
        last_valve_open_duration =
            corrected_int fl device "last_valve_open_duration" zb.last_valve_open_duration;
        irrigation_start_time = zb.irrigation_start_time;
        irrigation_end_time = zb.irrigation_end_time;
        daily_irrigation_volume =
            corrected_int fl device "daily_irrigation_volume" zb.daily_irrigation_volume;
        endpoint = zb.endpoint;
      }
  unfolding valve_row
  valve_row-build_payload now d =
      rw (int_power, int_duration, int_start, int_end, int_volume, int_endpoint)

  moisture_row-build_payload :
      (now : ℤ) (d : DbDevice)
      → moisture_row fl now d payload ≡ record {
        timestamp = now;
        device_id = d.id;
        temperature = corrected_float fl device "temperature" zb.temperature;
        humidity = corrected_float fl device "humidity" zb.humidity;
        endpoint = zb.endpoint;
      }
  unfolding moisture_row
  moisture_row-build_payload now d = rw (float_temperature, float_humidity, int_endpoint)

  room_row-build_payload :
      (now : ℤ) (d : DbDevice)
      → room_row fl now d payload ≡ record {
        timestamp = now;
        device_id = d.id;
        temperature = corrected_float fl device "temperature" zb.temperature;
        humidity = corrected_float fl device "humidity" zb.humidity;
        endpoint = zb.endpoint;
      }
  unfolding room_row
  room_row-build_payload now d = rw (float_temperature, float_humidity, int_endpoint)

  water_level_row-build_payload :
      (now : ℤ) (d : DbDevice)
      → water_level_row fl now d payload ≡ record {
        timestamp = now;
        device_id = d.id;
        level = corrected_int fl device "water_level" zb.water_level;
        endpoint = zb.endpoint;
      }
  unfolding water_level_row
  water_level_row-build_payload now d = rw (int_level, int_endpoint)

  -- When `float64` is exact up to 53 bits and the message's corrected numbers have no more: of a
  -- built payload the moisture row and the room row hold the reported temperature and humidity with
  -- their corrections, the water level row holds the reported level with its correction, and all
  -- three hold the endpoint as it was reported.
  pub measurement_rows-build_payload :
      (now : ℤ) (d : DbDevice)
      → (moisture_row fl now d payload ≡ record {
        timestamp = now;
        device_id = d.id;
        temperature = corrected_float fl device "temperature" zb.temperature;
        humidity = corrected_float fl device "humidity" zb.humidity;
        endpoint = zb.endpoint;
      })
        × (room_row fl now d payload ≡ record {
          timestamp = now;
          device_id = d.id;
          temperature = corrected_float fl device "temperature" zb.temperature;
          humidity = corrected_float fl device "humidity" zb.humidity;
          endpoint = zb.endpoint;
        })
        × (water_level_row fl now d payload ≡ record {
          timestamp = now;
          device_id = d.id;
          level = corrected_int fl device "water_level" zb.water_level;
          endpoint = zb.endpoint;
        })
  measurement_rows-build_payload now d = (
    moisture_row-build_payload now d,
    room_row-build_payload now d,
    water_level_row-build_payload now d,
  )
