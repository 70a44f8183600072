-- ===== src/Api/Alerts.antt =====
-- internal/api/alerts_service.go: `evaluateAlertCondition` and `GetTriggeredAlerts`. The service
-- reads the clock once for the list, as `now`, and once for each device that it measures, as
-- `clock device`.
pub mod Spec
pub mod Rounds
pub mod Laws
pub mod Window
pub mod Agree
use mqtt_sensor_exporter.Common.{
  String, ◌==◌, Bool, true, false, not, ◌&&◌, ◌||◌, Option, none, some, List, [], ◌∷◌, Result, ok,
  err, wrapped, if◌then◌else◌,
}
use mqtt_sensor_exporter.Common.Int.{ℤ, pos, ltb_ℤ}
use mqtt_sensor_exporter.Float.{Float64}
use mqtt_sensor_exporter.Kube.{Device, AlertCondition, Cluster}
use mqtt_sensor_exporter.Database.Gorm.{DbDevice}
use mqtt_sensor_exporter.Api.Filters.{AlertFilters}
use mqtt_sensor_exporter.Api.Measure.{
  Average, Averages, Measured, window_start, get_measurement_value,
}

-- `alerts.AlertDevice`
pub record AlertDevice (F : Type 0) : Type 0 where
  pub device_id : String
  pub device_name : String
  pub sensor_type : String
  pub location : String
  pub room : String
  pub ieee_addr : String
  pub short_addr : String
  pub current_value : F
  pub last_measurement : ℤ
  pub alert_condition : AlertCondition

module _ {F : Type 0} (fl : Float64 F) where
  abbrev pub compare_by : String → F → F → Bool
  compare_by operator value threshold =
      if operator == "above"
      then fl.gt value threshold
      else if operator == "below"
      then fl.lt value threshold
      else if operator == "is" || operator == "equals"
      then fl.eq value threshold
      else false

  -- A threshold that is no number is never reached.
  abbrev pub above_threshold : F → String → Option F → Bool
  above_threshold value operator none = false
  above_threshold value operator (some threshold) = compare_by operator value threshold

  unfoldable pub evaluate_alert_condition : F → AlertCondition → Bool
  evaluate_alert_condition value c = above_threshold value c.operator (fl.parse c.value)

-- `filter != "" && text != filter` skips the device.
abbrev pub passes : String → String → Bool
passes filter text = filter == "" || text == filter

unfoldable pub passes_all : AlertFilters → Device → Bool
passes_all fs d =
    passes fs.device_name d.name
    && passes fs.device_type d.sensor_type
    && passes fs.location d.location
    && passes fs.room d.room

-- The last measurement is older than the window of a `since` filter.
unfoldable pub too_old : ℤ → ℤ → ℤ → Bool
too_old now since last = ltb_ℤ (pos 0) since && ltb_ℤ last (window_start now since)

module _ {F : Type 0} (fl : Float64 F) where
  -- The `AlertDevice` of the loop's last part.
  unfoldable pub alert_of : Device → AlertCondition → DbDevice → Average F → AlertDevice F
  alert_of d c stored a = record {
    device_id = d.name;
    device_name = d.friendly_name;
    sensor_type = d.sensor_type;
    location = d.location;
    room = d.room;
    ieee_addr = d.ieee_addr;
    short_addr = stored.short_addr;
    current_value = a.avg_value;
    last_measurement = a.last_timestamp;
    alert_condition = c;
  }

  unfoldable pub judge :
      ℤ → ℤ → Device → AlertCondition → DbDevice → Option (Average F) → Option (AlertDevice F)
  judge now since d c stored none = none
  judge now since d c stored (some a) =
      if too_old now since a.last_timestamp
      then none
      else if evaluate_alert_condition fl a.avg_value c
      then some (alert_of d c stored a)
      else none

  -- A device whose measurement cannot be read is skipped.
  unfoldable pub judge_measured :
      ℤ → ℤ → Device → AlertCondition → Result (Measured F) → Option (AlertDevice F)
  judge_measured now since d c (err e) = none
  judge_measured now since d c (ok m) = judge now since d c m.device m.average

  -- `db_getter` and `clock` are asked anew for each device, and the getter may answer differently.
  module _ {W H : Type 0} (db : Averages W H F) (db_getter : Device → String → Option H) (now : ℤ)
      (clock : Device → ℤ) (fs : AlertFilters) (w : W) where
    -- One round of the loop: `none` is `continue`.
    unfoldable pub consider : Device → Option AlertCondition → Option (AlertDevice F)
    consider d none = none
    consider d (some c) =
        if d.disabled
        then none
        else if not (passes_all fs d)
        then none
        else judge_measured now fs.since d c (
            get_measurement_value db (clock d) w (db_getter d d.sensor_type) d.name d.sensor_type
              c.measurement fs.since)

    abbrev append_some : Option (AlertDevice F) → List (AlertDevice F) → List (AlertDevice F)
    append_some none rest = rest
    append_some (some a) rest = a ∷ rest

    unfoldable pub alerts_of : List Device → List (AlertDevice F)
    alerts_of [] = []
    alerts_of (d ∷ devices) = append_some (consider d d.alert_condition) (alerts_of devices)

    abbrev pub listed : Result (List Device) → Result (List (AlertDevice F))
    listed (err e) = err e
    listed (ok devices) = ok (alerts_of devices)

    unfoldable pub get_triggered_alerts : Cluster W → Result (List (AlertDevice F))
    get_triggered_alerts cluster =
        listed (wrapped "failed to list devices" (cluster.list_all_devices w))
