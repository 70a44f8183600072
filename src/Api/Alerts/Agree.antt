-- ===== src/Api/Alerts/Agree.antt =====
-- The alert evaluation of the API and `evaluateAlertCondition` of internal/tasmota, which no code
-- calls.
use mqtt_sensor_exporter.Common.{
  ◌≡◌, refl, String, ◌==◌, eq_iff, false, inl, inr, Bool-cases, Option, none, some, arith,
  if◌then◌else◌,
}
use mqtt_sensor_exporter.Float.{Float64}
use mqtt_sensor_exporter.Kube.{AlertCondition}
use mqtt_sensor_exporter.Api.Alerts.{compare_by, above_threshold, evaluate_alert_condition}
use mqtt_sensor_exporter.Tasmota.Corrections as Telemetry

-- internal/tasmota does not know the word "equals".
abbrev pub canonical : AlertCondition → AlertCondition
canonical c = record c { operator = if c.operator == "equals" then "is" else c.operator }

same_operator :
    {F : Type 0} (fl : Float64 F) (operator : String) (value threshold : F)
    → compare_by fl operator value threshold ≡ (
        let known = if operator == "equals" then "is" else operator in
        if known == "above"
        then fl.gt value threshold
        else if known == "below"
        then fl.lt value threshold
        else if known == "is"
        then fl.eq value threshold
        else false)
same_operator fl operator value threshold = elim (Bool-cases (operator == "equals")) [
  | inl e ↦ rw ((eq_iff operator "equals").0 e) refl
  | inr e ↦ rw e ground arith
]

module _ {F : Type 0} (fl : Float64 F) where
  -- The API judges a value by a condition as `evaluateAlertCondition` of internal/tasmota, which no
  -- code calls, would judge it by the condition with "is" for "equals".
  pub evaluate_alert_condition-canonical :
      (value : F) (c : AlertCondition)
      → evaluate_alert_condition fl value c
        ≡ Telemetry.evaluate_alert_condition fl value (some (canonical c))
  unfolding evaluate_alert_condition Telemetry.evaluate_alert_condition
  evaluate_alert_condition-canonical value c = go (fl.parse c.value)
    where
      go :
          (parsed : Option F)
          → above_threshold fl value c.operator parsed ≡ elim parsed [
            | none ↦ false
            | some threshold ↦
                let operator = if c.operator == "equals" then "is" else c.operator in
                if operator == "above"
                then fl.gt value threshold
                else if operator == "below"
                then fl.lt value threshold
                else if operator == "is"
                then fl.eq value threshold
                else false
          ]
      go none = refl
      go (some t) = same_operator fl c.operator value t
