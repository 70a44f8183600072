-- ===== src/Examples/Tasmota.antt =====
-- The theorems on internal/tasmota, applied.
use mqtt_sensor_exporter.Common.{
  ℕ, ◌≡◌, refl, ◌≢◌, ◌≤◌, true, none, some, List, [], ◌∷◌, ◌++◌, length, All, arith, Result, ok,
}
use mqtt_sensor_exporter.Common.Dict.{lookup}
use mqtt_sensor_exporter.Common.Int.{ℤ, pos, wrap_int, ◌+ℤ◌}
use mqtt_sensor_exporter.Database.Gorm.{DbDevice}
use mqtt_sensor_exporter.Database.Manager.{Connections, new_connection}
use mqtt_sensor_exporter.Database.Store.Device.{new_device, refreshed}
use mqtt_sensor_exporter.Database.Store.Rows.{valve_row, moisture_row, water_level_row, room_row}
use mqtt_sensor_exporter.Tasmota.Types.{TelemetryMessage, MessageContext}
use mqtt_sensor_exporter.Tasmota.Corrections.{apply_correction_to_int}
use mqtt_sensor_exporter.Tasmota.Names.{
  to_lower, hyphenate, trim_left, trim_right, is_lower_alnum, ensure_alnum_start,
  sanitize_device_name, device_stem, device_prefix, ensure_device_prefix, max_name,
}
use mqtt_sensor_exporter.Tasmota.Names.Shape.{IsNameRune, EndsAlnum}
use mqtt_sensor_exporter.Tasmota.Names.Valid.{sanitize_device_name-shape}
use mqtt_sensor_exporter.Tasmota.Names.Again.{
  HasNoAlnum, sanitize_device_name_idempotent, sanitize_device_name_of_HasNoAlnum,
}
use mqtt_sensor_exporter.Tasmota.Build.{build_payload, corrected_int}
use mqtt_sensor_exporter.Tasmota.Build.Rows.{
  IsRepresentable, valve_row-build_payload, measurement_rows-build_payload,
}
use mqtt_sensor_exporter.Tasmota.Telemetry.{update_device}
use mqtt_sensor_exporter.Tasmota.Telemetry.Laws.{
  with_disabled, update_device-disabled, addresses_never_stored,
}
use mqtt_sensor_exporter.Tasmota.Dispatcher.{MessageHandler}
use mqtt_sensor_exporter.Examples.World.{
  integers, integers-IsExact, Tables, no_rows, valve_1, garden_db, valve_report, outside,
}

abbrev pub conns : Connections (Unit {0})
conns = ("iot/garden", new_connection garden_db tt) ∷ []

-- A decoder that reads every payload as one report of the valve.
abbrev pub decode : List ℕ → Result (TelemetryMessage ℤ)
decode payload =
    ok (record { time = "2026-01-01T00:00:00"; zb_received = ("0x1A2B", valve_report) ∷ [] })

abbrev pub context : MessageContext
context = record {
  bridge_name = "bridge";
  bridge_namespace = "iot";
  topic = "tele/zigbee/SENSOR";
  timestamp = pos 1000;
}

update_device-disabled_example :
    update_device outside (some conns) (with_disabled true valve_1) valve_report no_rows
    ≡ update_device outside (some conns) valve_1 valve_report no_rows
update_device-disabled_example =
    update_device-disabled outside (some conns) valve_1 true valve_report no_rows

abbrev stored_valve : DbDevice
stored_valve = record {
  id = 1;
  device_id = "valve-1";
  sensor_type = "valve";
  device_name = "Valve";
  short_addr = "";
  ieee_addr = "";
}

addresses_never_stored_example :
    let payload = build_payload integers valve_1 valve_report in
    ((new_device "valve" "valve-1" payload).short_addr ≡ "")
    × ((new_device "valve" "valve-1" payload).ieee_addr ≡ "")
    × ((refreshed payload stored_valve).short_addr ≡ "")
    × ((refreshed payload stored_valve).ieee_addr ≡ "")
addresses_never_stored_example =
    addresses_never_stored integers valve_1 valve_report "valve" "valve-1" stored_valve

valve_report-IsRepresentable : IsRepresentable integers valve_1 valve_report
unfolding apply_correction_to_int lookup wrap_int ◌+ℤ◌
valve_report-IsRepresentable = record {
  fits_endpoint = (omega arith, omega arith);
  fits_power = (omega arith, omega arith);
  fits_battery = (omega arith, omega arith);
  fits_link = (omega arith, omega arith);
  fits_level = tt;
  fits_duration = (omega arith, omega arith);
  fits_start = tt;
  fits_end = tt;
  fits_volume = (omega arith, omega arith);
}

valve_row-build_payload_example :
    valve_row integers (pos 1000) stored_valve (build_payload integers valve_1 valve_report)
    ≡ record {
      timestamp = pos 1000;
      device_id = 1;
      power = corrected_int integers valve_1 "power" (some (pos 1));
      last_valve_open_duration =
          corrected_int integers valve_1 "last_valve_open_duration" (some (pos 60));
      irrigation_start_time = none;
      irrigation_end_time = none;
      daily_irrigation_volume =
          corrected_int integers valve_1 "daily_irrigation_volume" (some (pos 12));
      endpoint = some (pos 1);
    }
valve_row-build_payload_example =
    valve_row-build_payload integers integers-IsExact valve_1 valve_report
      valve_report-IsRepresentable (pos 1000) stored_valve

measurement_rows-build_payload_example :
    (moisture_row integers (pos 1000) stored_valve (build_payload integers valve_1 valve_report)
      ≡ record {
        timestamp = pos 1000;
        device_id = 1;
        temperature = none;
        humidity = none;
        endpoint = some (pos 1);
      })
    × (room_row integers (pos 1000) stored_valve (build_payload integers valve_1 valve_report)
        ≡ record {
          timestamp = pos 1000;
          device_id = 1;
          temperature = none;
          humidity = none;
          endpoint = some (pos 1);
        })
    × (water_level_row integers
          (pos 1000)
          stored_valve
          (build_payload integers valve_1 valve_report)
        ≡ record { timestamp = pos 1000; device_id = 1; level = none; endpoint = some (pos 1) })
measurement_rows-build_payload_example =
    measurement_rows-build_payload integers integers-IsExact valve_1 valve_report
      valve_report-IsRepresentable (pos 1000) stored_valve

-- "Pump 1" and "??"
abbrev pump : List ℕ
pump = 80 ∷ 117 ∷ 109 ∷ 112 ∷ 32 ∷ 49 ∷ []

abbrev marks : List ℕ
marks = 63 ∷ 63 ∷ []

abbrev same_rune : ℕ → ℕ
same_rune r = r

pump_stem : device_stem same_rune pump ≡ 112 ∷ 117 ∷ 109 ∷ 112 ∷ 45 ∷ 49 ∷ []
unfolding device_stem to_lower hyphenate trim_left trim_right is_lower_alnum ensure_alnum_start
pump_stem = refl

pump_full : device_stem same_rune pump ≢ []
pump_full e = cc (pump_stem, e)

pump_fits : length (ensure_device_prefix (device_stem same_rune pump)) ≤ max_name
unfolding ensure_device_prefix
pump_fits = rw pump_stem omega arith

sanitize_device_name-shape_example :
    (rest : List ℕ) × (sanitize_device_name same_rune pump ≡ device_prefix ++ rest)
    × (length rest ≤ 246)
    × All IsNameRune rest
sanitize_device_name-shape_example = sanitize_device_name-shape same_rune pump

sanitize_device_name_idempotent_example :
    sanitize_device_name same_rune (sanitize_device_name same_rune pump)
    ≡ sanitize_device_name same_rune pump
sanitize_device_name_idempotent_example =
    sanitize_device_name_idempotent same_rune pump pump_full pump_fits

marks-HasNoAlnum : HasNoAlnum same_rune marks
unfolding is_lower_alnum to_lower
marks-HasNoAlnum = (refl, (refl, tt))

sanitize_device_name_of_HasNoAlnum_example :
    (sanitize_device_name same_rune marks ≡ device_prefix)
    × ¬ EndsAlnum (sanitize_device_name same_rune marks)
sanitize_device_name_of_HasNoAlnum_example =
    sanitize_device_name_of_HasNoAlnum same_rune marks marks-HasNoAlnum

abbrev silent : MessageHandler Tables
silent ctx payload w = (w, ok tt)
