-- ===== src/Tasmota/Corrections.antt =====
-- internal/tasmota/utils.go: the corrections of measurements, and the alert condition.
pub mod Laws
use mqtt_sensor_exporter.Common.{String, Bool, true, false, Option, none, some, ◌==◌, if◌then◌else◌}
use mqtt_sensor_exporter.Common.Dict.{lookup}
use mqtt_sensor_exporter.Common.Int.{ℤ, ◌+ℤ◌, wrap_int}
use mqtt_sensor_exporter.Float.{Float64}
use mqtt_sensor_exporter.Kube.{Device, AlertCondition}

module _ {F : Type 0} (fl : Float64 F) where
  -- `nil` devices, devices with no corrections, absent keys and texts that are no numbers leave
  -- the value as it is.
  unfoldable pub apply_correction_to_float : F → String → Option Device → F
  apply_correction_to_float value key none = value
  apply_correction_to_float value key (some device) = elim device.corrections [
    | none ↦ value
    | some corrections ↦ elim (lookup key corrections) [
      | none ↦ value
      | some correction_str ↦ elim (fl.parse correction_str) [
        | none ↦ value
        | some correction ↦ fl.add value correction
      ]
    ]
  ]

  -- The correction is cut to an `int` before the addition, which wraps.
  unfoldable pub apply_correction_to_int : ℤ → String → Option Device → ℤ
  apply_correction_to_int value key none = value
  apply_correction_to_int value key (some device) = elim device.corrections [
    | none ↦ value
    | some corrections ↦ elim (lookup key corrections) [
      | none ↦ value
      | some correction_str ↦ elim (fl.parse correction_str) [
        | none ↦ value
        | some correction ↦ wrap_int (value +ℤ fl.to_int correction)
      ]
    ]
  ]

  unfoldable pub evaluate_alert_condition : F → Option AlertCondition → Bool
  evaluate_alert_condition value none = false
  evaluate_alert_condition value (some condition) = elim (fl.parse condition.value) [
    | none ↦ false
    | some threshold ↦
        if condition.operator == "above"
        then fl.gt value threshold
        else if condition.operator == "below"
        then fl.lt value threshold
        else if condition.operator == "is"
        then fl.eq value threshold
        else false
  ]
