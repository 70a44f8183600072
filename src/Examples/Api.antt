-- ===== src/Examples/Api.antt =====
-- The theorems on internal/api, applied.
use Prim.Native.String.{String, ◌++◌ as ◌<>◌}
use mathlib.Core.List.{Memᴰ}
use mathlib.Core.Path.{subst}
use mqtt_sensor_exporter.Common.{
  Bool, true, false, ◌⊎◌, inl, inr, ap, sym, if◌then◌else◌, ◌≡◌, refl, ◌≢◌, ◌↔◌, ◌⊎◌, true, Option,
  some, List, [], ◌∷◌, arith, errorf, Result, ok, err,
}
use mqtt_sensor_exporter.Common.Int.{ltb_ℤ, ℤ, pos, ◌≤ℤ◌, ◌+ℤ◌, ◌-ℤ◌, wrap_int}
use mqtt_sensor_exporter.Kube.{Device, AlertCondition}
use mqtt_sensor_exporter.Database.Gorm.{Lookup, DbDevice, found}
use mqtt_sensor_exporter.Database.Kind.{kind}
use mqtt_sensor_exporter.Tasmota.Corrections as Telemetry
use mqtt_sensor_exporter.Api.Duration.{minute, days_to_duration, parse_duration}
use mqtt_sensor_exporter.Api.Duration.Units.{parse_duration_units}
use mqtt_sensor_exporter.Api.Filters.{Request, AlertFilters, parse_alert_filters}
use mqtt_sensor_exporter.Api.Measure.{
  Average, Averages, get_measurement_value, measure_device, get_average_measurement, average_in,
  checked_average,
}
use mqtt_sensor_exporter.Api.Alerts.{
  AlertDevice, evaluate_alert_condition, get_triggered_alerts, alerts_of, consider, passes_all,
  judge_measured, judge, too_old, alert_of,
}
use mqtt_sensor_exporter.Api.Alerts.Spec.{IsReached, IsTriggered, evaluate_alert_condition_iff}
use mqtt_sensor_exporter.Api.Alerts.Laws.{get_triggered_alerts-Triggered}
use mqtt_sensor_exporter.Api.Alerts.Window.{ReadsWindow, get_triggered_alerts_default}
use mqtt_sensor_exporter.Api.Alerts.Agree.{canonical, evaluate_alert_condition-canonical}
use mqtt_sensor_exporter.Api.Handler.{handle_alerts}
use mqtt_sensor_exporter.Api.Handler.Laws.{FiltersOutcome, handle_alerts_outcome}
use mqtt_sensor_exporter.Examples.World.{integers, Tables, memory, no_rows, garden, cluster}

abbrev stored_soil : DbDevice
stored_soil = record {
  id = 1;
  device_id = "soil-1";
  sensor_type = "moisture";
  device_name = "Soil";
  short_addr = "0x1A2C";
  ieee_addr = "";
}

abbrev tables : Tables
tables = record no_rows { devices = stored_soil ∷ [] }

-- One measurement, of 7; over no rows the last timestamp is the zero time.
abbrev measured_at : ℤ
measured_at = pos 140000000000

abbrev scan : ℤ → Lookup (Average ℤ)
scan start = found (
    if ltb_ℤ measured_at start
    then record { avg_value = pos 0; last_timestamp = pos 0 }
    else record { avg_value = pos 7; last_timestamp = measured_at })

abbrev averages : Averages Tables (Unit {0}) ℤ
averages = record { gorm = memory; scan_average = λ w h table column id start. scan start }

averages-ReadsWindow : ReadsWindow averages tables
averages-ReadsWindow h table column id start a e = go (ltb_ℤ measured_at start) refl (found_inj e)
  where
    found_inj : {x y : Average ℤ} → found x ≡ found y → x ≡ y
    found_inj q = cc

    last : Average ℤ → ℤ
    last x = x.last_timestamp

    go :
        (b : Bool)
        → ltb_ℤ measured_at start ≡ b
        → (if b
            then record { avg_value = pos 0; last_timestamp = pos 0 }
            else record { avg_value = pos 7; last_timestamp = measured_at })
          ≡ a
        → (a.last_timestamp ≡ pos 0) ⊎ (start ≤ℤ a.last_timestamp)
    go true before q = inl (sym (ap last q))
    go false after q = inr (subst (λ t. start ≤ℤ t) (ap last q) (ground arith))

abbrev open_db : Device → String → Option (Unit {0})
open_db d sensor_type = some tt

abbrev clock : Device → ℤ
clock d = pos 200000000000

abbrev pub no_filters : AlertFilters
no_filters = record { device_name = ""; device_type = ""; location = ""; room = ""; since = pos 0 }

abbrev soil_alert : AlertDevice ℤ
soil_alert = record {
  device_id = "soil-1";
  device_name = "Soil";
  sensor_type = "moisture";
  location = "garden";
  room = "";
  ieee_addr = "0x00158e";
  short_addr = "0x1A2C";
  current_value = pos 7;
  last_measurement = pos 140000000000;
  alert_condition = record { measurement = "Temperature"; operator = "above"; value = "5" };
}

returned :
    get_triggered_alerts integers averages open_db
      (pos 200000000000)
      clock
      no_filters
      tables
      cluster
    ≡ ok (soil_alert ∷ [])
unfolding get_triggered_alerts alerts_of consider passes_all judge_measured judge too_old
    evaluate_alert_condition get_measurement_value measure_device get_average_measurement average_in
    checked_average alert_of kind ◌+ℤ◌ ◌-ℤ◌ wrap_int
returned = refl

get_triggered_alerts-Triggered_example : Memᴰ soil_alert (soil_alert ∷ []) ↔ (
    (d : Device) × Memᴰ d garden
    × IsTriggered integers averages open_db (pos 200000000000) clock no_filters tables d soil_alert)
get_triggered_alerts-Triggered_example =
    get_triggered_alerts-Triggered integers averages open_db (pos 200000000000) clock no_filters
      tables cluster garden (soil_alert ∷ []) soil_alert refl returned

get_triggered_alerts_default_example :
    get_triggered_alerts integers averages open_db
      (pos 200000000000)
      clock
      no_filters
      tables
      cluster
    ≡ get_triggered_alerts integers averages open_db
        (pos 200000000000)
        clock
        (record no_filters { since = minute })
        tables
        cluster
get_triggered_alerts_default_example =
    get_triggered_alerts_default integers averages tables averages-ReadsWindow open_db
      (pos 200000000000) clock (λ d. omega arith) no_filters cluster

evaluate_alert_condition_iff_example :
    (evaluate_alert_condition integers
        (pos 7)
        (record { measurement = "level"; operator = "is"; value = "5" })
      ≡ true)
    ↔ IsReached integers (pos 7) (record { measurement = "level"; operator = "is"; value = "5" })
evaluate_alert_condition_iff_example =
    evaluate_alert_condition_iff integers (pos 7)
      (record { measurement = "level"; operator = "is"; value = "5" })

evaluate_alert_condition-canonical_example :
    let c : AlertCondition = record { measurement = "level"; operator = "equals"; value = "5" } in
    evaluate_alert_condition integers (pos 5) c
    ≡ Telemetry.evaluate_alert_condition integers (pos 5) (some (canonical c))
evaluate_alert_condition-canonical_example =
    evaluate_alert_condition-canonical integers (pos 5)
      (record { measurement = "level"; operator = "equals"; value = "5" })

abbrev no_number : String → Result ℤ
no_number s = err (errorf "no number")

abbrev one : String → Result ℤ
one s = ok (pos 1)

parse_duration_units_example :
    (parse_duration no_number one ("1" <> "d") ≡ days_to_duration (one "1"))
    × (parse_duration no_number one ("1" <> "min") ≡ no_number ("1" <> "m"))
    × (parse_duration no_number one ("1" <> "hour") ≡ no_number ("1" <> "h"))
    × (parse_duration no_number one ("1" <> "sec") ≡ no_number ("1" <> "s"))
    × (parse_duration no_number one ("1" <> "day") ≡ no_number ("1" <> "h"))
parse_duration_units_example = parse_duration_units no_number one "1" (refl, tt)

abbrev request : Request
request = record { method = "GET"; path = "/api/v2/alerts"; query = [] }

abbrev service : AlertFilters → Result (List (AlertDevice ℤ))
service filters = ok (soil_alert ∷ [])

handle_alerts_outcome_example :
    ((request.method ≢ "GET") × ((handle_alerts service no_number one request).code ≡ 405))
    ⊎ ((request.method ≡ "GET")
        × FiltersOutcome service
            (parse_alert_filters no_number one request)
            (handle_alerts service no_number one request))
handle_alerts_outcome_example = handle_alerts_outcome service no_number one request
