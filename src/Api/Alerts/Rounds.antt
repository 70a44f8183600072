-- ===== src/Api/Alerts/Rounds.antt =====
-- One round of the loop over the devices appends an alert just when the device has triggered it.
use mqtt_sensor_exporter.Common.{
  some_inj, if_true, if_false, ◌≡◌, refl, sym, ◌∙◌, ap, ◌≢◌, ◌↔◌, inl, inr, String, Bool, true,
  false, not, Option, none, some, arith, if◌then◌else◌, Bool-cases,
}
use mqtt_sensor_exporter.Common.Int.{ℤ, pos, eqb_ℤ}
use mqtt_sensor_exporter.Float.{Float64}
use mqtt_sensor_exporter.Kube.{Device, AlertCondition}
use mqtt_sensor_exporter.Database.Gorm.{DbDevice, Lookup, found, not_found, failed}
use mqtt_sensor_exporter.Database.Kind.{kind}
use mqtt_sensor_exporter.Api.Filters.{AlertFilters}
use mqtt_sensor_exporter.Api.Measure.{
  Average, Averages, get_measurement_column, table_of, window_start, window, checked_average,
  average_in, get_average_measurement, measure_device, get_measurement_value,
}
use mqtt_sensor_exporter.Api.Alerts.{
  AlertDevice, evaluate_alert_condition, passes_all, too_old, alert_of, judge, judge_measured,
  consider,
}
use mqtt_sensor_exporter.Api.Alerts.Spec.{
  IsTriggered, passes_all_iff, eqb_ℤ_iff, too_old_iff, evaluate_alert_condition_iff,
}

true≢false : true ≢ false
true≢false e = cc e

-- The last part of a round, for a dated average or not.
module _ {F : Type 0} (fl : Float64 F) (now since : ℤ) (d : Device) (c : AlertCondition)
    (r : DbDevice) (a : Average F) (x : AlertDevice F) where
  -- The alert is `x` just when all tests pass.
  pub judge_tests : (judge_measured fl now since d c (checked_average r (found a)) ≡ some x) ↔ (
      (eqb_ℤ a.last_timestamp (pos 0) ≡ false)
      × (too_old now since a.last_timestamp ≡ false)
      × (evaluate_alert_condition fl a.avg_value c ≡ true)
      × (x ≡ alert_of fl d c r a))
  unfolding checked_average judge_measured judge
  judge_tests = elim (Bool-cases (eqb_ℤ a.last_timestamp (pos 0))) [
    | inl e ↦ rw e ground arith
    | inr e ↦
        rw e
          (dated (too_old now since a.last_timestamp) (evaluate_alert_condition fl a.avg_value c))
  ]
    where
      dated :
          (old met : Bool)
          → ((if old then none else if met then some (alert_of fl d c r a) else none) ≡ some x)
            ↔ ((false ≡ false) × (old ≡ false) × (met ≡ true) × (x ≡ alert_of fl d c r a))
      dated true met = (λ h. cc h, λ h. cc h.1)
      dated false true = (λ h. (refl, refl, refl, sym (some_inj h)), λ h. ap some (sym h.3))
      dated false false = (λ h. cc h, λ h. cc h.2)

module _ {W H F : Type 0} (fl : Float64 F) (db : Averages W H F)
    (db_getter : Device → String → Option H) (now : ℤ) (clock : Device → ℤ) (fs : AlertFilters)
    (w : W) where
  abbrev pub Triggered : Device → AlertDevice F → Type 0
  Triggered = IsTriggered fl db db_getter now clock fs w

  -- What a round has found, step by step, when it appends `x`.
  module _ (d : Device) (x : AlertDevice F) (c : AlertCondition)
      (configured : d.alert_condition ≡ some c) (enabled : d.disabled ≡ false)
      (passed : passes_all fs d ≡ true) where
    from_average :
        (h : H) (r : DbDevice) (table : String)
        → db_getter d d.sensor_type ≡ some h
        → db.gorm.first_device w h d.name ≡ found r
        → table_of (kind d.sensor_type) ≡ some table
        → (l : Lookup (Average F))
        → db.scan_average w h table
            (get_measurement_column c.measurement)
            r.id
            (window_start (clock d) (window fs.since))
          ≡ l
        → judge_measured fl now fs.since d c (checked_average r l) ≡ some x
        → Triggered d x
    unfolding checked_average judge_measured judge alert_of
    from_average h r table e₁ e₂ e₃ not_found e₄ j = cc j
    from_average h r table e₁ e₂ e₃ (failed e) e₄ j = cc j
    from_average h r table e₁ e₂ e₃ (found a) e₄ j =
        let tests = (judge_tests fl now fs.since d c r a x).0 j in
        record {
          condition = c;
          configured = configured;
          enabled = enabled;
          matches = (passes_all_iff fs d).0 passed;
          handle = h;
          available = e₁;
          stored = r;
          known = e₂;
          table = table;
          supported = e₃;
          average = a;
          scanned = e₄;
          dated = λ e. true≢false (sym ((eqb_ℤ_iff a.last_timestamp (pos 0)).1 e) ∙ tests.0);
          recent = (too_old_iff now fs.since a.last_timestamp).0 tests.1;
          reached = (evaluate_alert_condition_iff fl a.avg_value c).0 tests.2;
          same = tests.3;
        }

    from_table :
        (h : H) (r : DbDevice)
        → db_getter d d.sensor_type ≡ some h
        → db.gorm.first_device w h d.name ≡ found r
        → (t : Option String) → table_of (kind d.sensor_type) ≡ t
        → judge_measured fl now fs.since d c
            (average_in db (clock d) t w h r d.sensor_type c.measurement (window fs.since))
          ≡ some x
        → Triggered d x
    unfolding average_in judge_measured
    from_table h r e₁ e₂ none e₃ j = cc j
    from_table h r e₁ e₂ (some table) e₃ j = from_average h r table e₁ e₂ e₃ _ refl j

    from_device :
        (h : H)
        → db_getter d d.sensor_type ≡ some h
        → (l : Lookup DbDevice) → db.gorm.first_device w h d.name ≡ l
        → judge_measured fl now fs.since d c
            (measure_device db (clock d) w h d.name d.sensor_type c.measurement fs.since l)
          ≡ some x
        → Triggered d x
    unfolding measure_device get_average_measurement judge_measured
    from_device h e₁ not_found e₂ j = cc j
    from_device h e₁ (failed e) e₂ j = cc j
    from_device h e₁ (found r) e₂ j = from_table h r e₁ e₂ _ refl j

    from_handle :
        (o : Option H)
        → db_getter d d.sensor_type ≡ o
        → judge_measured fl now fs.since d c
            (get_measurement_value db (clock d) w o d.name d.sensor_type c.measurement fs.since)
          ≡ some x
        → Triggered d x
    unfolding get_measurement_value judge_measured
    from_handle none e₁ j = cc j
    from_handle (some h) e₁ j = from_device h e₁ _ refl j

  pub from_round :
      (d : Device) (x : AlertDevice F) (o : Option AlertCondition)
      → d.alert_condition ≡ o
      → consider fl db db_getter now clock fs w d o ≡ some x
      → Triggered d x
  unfolding consider
  from_round d x none e j = cc j
  from_round d x (some c) e j = elim (Bool-cases d.disabled) [
    | inl off ↦ cc (sym (if_true d.disabled _ _ off) ∙ j)
    | inr on ↦
        let on_j = sym (if_false d.disabled _ _ on) ∙ j in
        elim (Bool-cases (passes_all fs d)) [
          | inl good ↦
              from_handle d x c e on good _ refl
                (sym (if_false (not (passes_all fs d)) _ _ (ap not good)) ∙ on_j)
          | inr bad ↦ cc (sym (if_true (not (passes_all fs d)) _ _ (ap not bad)) ∙ on_j)
        ]
  ]

  -- A round in which every read succeeds comes down to the tests on the average.
  pub consider-judge_measured :
      (d : Device) (c : AlertCondition) (h : H) (r : DbDevice) (table : String) (a : Average F)
      → d.alert_condition ≡ some c
      → d.disabled ≡ false
      → passes_all fs d ≡ true
      → db_getter d d.sensor_type ≡ some h
      → db.gorm.first_device w h d.name ≡ found r
      → table_of (kind d.sensor_type) ≡ some table
      → db.scan_average w h table
          (get_measurement_column c.measurement)
          r.id
          (window_start (clock d) (window fs.since))
        ≡ found a
      → consider fl db db_getter now clock fs w d d.alert_condition
        ≡ judge_measured fl now fs.since d c (checked_average r (found a))
  unfolding consider get_measurement_value measure_device get_average_measurement average_in
  consider-judge_measured d c h r table a configured enabled passed available known supported
        scanned =
      let since = window fs.since in
      ap (consider fl db db_getter now clock fs w d) configured
      ∙ if_false d.disabled _ _ enabled
      ∙ if_false (not (passes_all fs d)) _ _ (ap not passed)
      ∙ ap
          (λ o.
            judge_measured fl now fs.since d c
              (get_measurement_value db (clock d) w o d.name d.sensor_type c.measurement fs.since))
          available
      ∙ ap
          (λ l.
            judge_measured fl now fs.since d c
              (measure_device db (clock d) w h d.name d.sensor_type c.measurement fs.since l))
          known
      ∙ ap
          (λ o.
            judge_measured fl now fs.since d c
              (average_in db (clock d) o w h r d.sensor_type c.measurement since))
          supported
      ∙ ap (λ l. judge_measured fl now fs.since d c (checked_average r l)) scanned

  pub to_round :
      (d : Device) (x : AlertDevice F)
      → Triggered d x
      → consider fl db db_getter now clock fs w d d.alert_condition ≡ some x
  unfolding alert_of
  to_round d x t =
      let undated : eqb_ℤ t.average.last_timestamp (pos 0) ≡ false =
        ground (arith, eqb_ℤ_iff t.average.last_timestamp (pos 0), t.dated) in
      consider-judge_measured d t.condition t.handle t.stored t.table t.average t.configured
        t.enabled ((passes_all_iff fs d).1 t.matches) t.available t.known t.supported t.scanned
      ∙ (judge_tests fl now fs.since d t.condition t.stored t.average x).1 (
        undated,
        (too_old_iff now fs.since t.average.last_timestamp).1 t.recent,
        (evaluate_alert_condition_iff fl t.average.avg_value t.condition).1 t.reached,
        t.same,
      )
