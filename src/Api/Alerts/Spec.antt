-- ===== src/Api/Alerts/Spec.antt =====
-- When a device's alert is triggered, as a predicate, and what the service evaluates.
use mqtt_sensor_exporter.Common.{
  some_inj, ◌≡◌, refl, sym, ◌∙◌, ◌≢◌, ◌↔◌, ◌⊎◌, String, eq_iff, true, false, Option, none, some,
  arith,
}
use mqtt_sensor_exporter.Common.Int.{ℤ, pos, negsuc, ◌≤ℤ◌, eqb_ℤ}
use mqtt_sensor_exporter.Float.{Float64}
use mqtt_sensor_exporter.Kube.{Device, AlertCondition}
use mqtt_sensor_exporter.Database.Gorm.{DbDevice, found}
use mqtt_sensor_exporter.Database.Kind.{kind}
use mqtt_sensor_exporter.Api.Filters.{AlertFilters}
use mqtt_sensor_exporter.Api.Measure.{
  Average, Averages, get_measurement_column, table_of, window_start, window,
}
use mqtt_sensor_exporter.Api.Alerts.{
  AlertDevice, compare_by, above_threshold, evaluate_alert_condition, passes, passes_all, too_old,
}

-- A filter that is not set lets every text through.
abbrev pub Matches : String → String → Type 0
Matches filter text = (filter ≡ "") ⊎ (text ≡ filter)

abbrev pub MatchesAll : AlertFilters → Device → Type 0
MatchesAll fs d =
    Matches fs.device_name d.name
    × Matches fs.device_type d.sensor_type
    × Matches fs.location d.location
    × Matches fs.room d.room

-- The value stands to the threshold as the operator says.
abbrev pub Reaches : {F : Type 0} → Float64 F → String → F → F → Type 0
Reaches fl operator value threshold =
    ((operator ≡ "above") × (fl.gt value threshold ≡ true))
    ⊎ ((operator ≡ "below") × (fl.lt value threshold ≡ true))
    ⊎ (((operator ≡ "is") ⊎ (operator ≡ "equals")) × (fl.eq value threshold ≡ true))

-- The threshold's text is a number, and the value reaches it.
abbrev pub IsReached : {F : Type 0} → Float64 F → F → AlertCondition → Type 0
IsReached {F} fl value c =
    (threshold : F) × (fl.parse c.value ≡ some threshold) × Reaches fl c.operator value threshold

-- No `since` filter, or a last measurement in its window.
abbrev pub IsRecent : ℤ → ℤ → ℤ → Type 0
IsRecent now since last = (since ≤ℤ pos 0) ⊎ (window_start now since ≤ℤ last)

module _ {W H F : Type 0} (fl : Float64 F) (db : Averages W H F)
    (db_getter : Device → String → Option H) (now : ℤ) (clock : Device → ℤ) (fs : AlertFilters)
    (w : W) where
  -- `x` is the alert that `d` has triggered: an enabled device that passes the filters, with a
  -- handle, a stored device and a dated average over the window, which reaches the threshold.
  pub record IsTriggered (d : Device) (x : AlertDevice F) : Type 0 where
    pub condition : AlertCondition
    pub configured : d.alert_condition ≡ some condition
    pub enabled : d.disabled ≡ false
    pub matches : MatchesAll fs d
    pub handle : H
    pub available : db_getter d d.sensor_type ≡ some handle
    pub stored : DbDevice
    pub known : db.gorm.first_device w handle d.name ≡ found stored
    pub table : String
    pub supported : table_of (kind d.sensor_type) ≡ some table
    pub average : Average F
    pub scanned :
        db.scan_average w handle table
          (get_measurement_column condition.measurement)
          stored.id
          (window_start (clock d) (window fs.since))
        ≡ found average
    pub dated : average.last_timestamp ≢ pos 0
    pub recent : IsRecent now fs.since average.last_timestamp
    pub reached : IsReached fl average.avg_value condition
    pub same : x ≡ record {
      device_id = d.name;
      device_name = d.friendly_name;
      sensor_type = d.sensor_type;
      location = d.location;
      room = d.room;
      ieee_addr = d.ieee_addr;
      short_addr = stored.short_addr;
      current_value = average.avg_value;
      last_measurement = average.last_timestamp;
      alert_condition = condition;
    }

pub passes_iff : (filter text : String) → (passes filter text ≡ true) ↔ Matches filter text
passes_iff filter text = ground (arith, eq_iff filter "", eq_iff text filter)

pub passes_all_iff : (fs : AlertFilters) (d : Device) → (passes_all fs d ≡ true) ↔ MatchesAll fs d
unfolding passes_all
passes_all_iff fs d = ground (
  arith,
  passes_iff fs.device_name d.name,
  passes_iff fs.device_type d.sensor_type,
  passes_iff fs.location d.location,
  passes_iff fs.room d.room,
)

pub eqb_ℤ_iff : (a b : ℤ) → (eqb_ℤ a b ≡ true) ↔ (a ≡ b)
eqb_ℤ_iff (pos a) (pos b) = ground arith
eqb_ℤ_iff (pos a) (negsuc b) = ground arith
eqb_ℤ_iff (negsuc a) (pos b) = ground arith
eqb_ℤ_iff (negsuc a) (negsuc b) = ground arith

pub too_old_iff : (now since last : ℤ) → (too_old now since last ≡ false) ↔ IsRecent now since last
unfolding too_old
too_old_iff now since last = ground arith

compare_by_iff :
    {F : Type 0} (fl : Float64 F) (operator : String) (value threshold : F)
    → (compare_by fl operator value threshold ≡ true) ↔ Reaches fl operator value threshold
compare_by_iff fl operator value threshold = ground (
  arith,
  eq_iff operator "above",
  eq_iff operator "below",
  eq_iff operator "is",
  eq_iff operator "equals",
  eq_iff "above" "below",
  eq_iff "above" "is",
  eq_iff "above" "equals",
  eq_iff "below" "is",
  eq_iff "below" "equals",
)

-- The evaluation says whether the threshold's text is a number that the value reaches by one of the
-- four operators.
pub evaluate_alert_condition_iff :
    {F : Type 0} (fl : Float64 F) (value : F) (c : AlertCondition)
    → (evaluate_alert_condition fl value c ≡ true) ↔ IsReached fl value c
unfolding evaluate_alert_condition
evaluate_alert_condition_iff {F} fl value c = go (fl.parse c.value) refl
  where
    go :
        (parsed : Option F)
        → fl.parse c.value ≡ parsed
        → (above_threshold fl value c.operator parsed ≡ true) ↔ IsReached fl value c
    go none e = (λ h. cc h, λ r. cc (r.1, e))
    go (some t) e = (
      λ h. (t, e, (compare_by_iff fl c.operator value t).0 h),
      λ r. (compare_by_iff fl c.operator value t).1 (rw (some_inj (sym r.1 ∙ e)) at r.2),
    )
