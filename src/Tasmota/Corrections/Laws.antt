-- ===== src/Tasmota/Corrections/Laws.antt =====
-- What a correction does to a measurement.
use mqtt_sensor_exporter.Common.{◌≡◌, refl, String, Option, none, some, arith}
use mqtt_sensor_exporter.Common.Dict.{lookup}
use mqtt_sensor_exporter.Common.Int.{ℤ, ◌+ℤ◌, wrap_int, InInt, wrap_int-InInt}
use mqtt_sensor_exporter.Float.{Float64}
use mqtt_sensor_exporter.Kube.{Device}
use mqtt_sensor_exporter.Tasmota.Corrections.{apply_correction_to_float, apply_correction_to_int}

-- Chaining of optional values.
abbrev pub and_then : {A B : Type 0} → Option A → (A → Option B) → Option B
and_then none f = none
and_then (some a) f = f a

module _ {F : Type 0} (fl : Float64 F) where
  -- The number that a device's corrections hold under a key, if there is one that parses.
  abbrev pub correction_of : Option Device → String → Option F
  correction_of d key =
      and_then d (λ dev. and_then dev.corrections (λ cs. and_then (lookup key cs) fl.parse))

  abbrev pub shifted : F → Option F → F
  shifted value none = value
  shifted value (some c) = fl.add value c

  abbrev pub shifted_int : ℤ → Option F → ℤ
  shifted_int value none = value
  shifted_int value (some c) = wrap_int (value +ℤ fl.to_int c)

  pub apply_correction_to_float_lem :
      (value : F) (key : String) (d : Option Device)
      → apply_correction_to_float fl value key d ≡ shifted value (correction_of d key)
  unfolding apply_correction_to_float
  apply_correction_to_float_lem value key none = refl
  apply_correction_to_float_lem value key (some d) = ground arith

  pub apply_correction_to_int_lem :
      (value : ℤ) (key : String) (d : Option Device)
      → apply_correction_to_int fl value key d ≡ shifted_int value (correction_of d key)
  unfolding apply_correction_to_int
  apply_correction_to_int_lem value key none = refl
  apply_correction_to_int_lem value key (some d) = ground arith

  -- A corrected `int` is an `int` again.
  pub apply_correction_to_int-InInt :
      (value : ℤ) (key : String) (d : Option Device)
      → InInt value
      → InInt (apply_correction_to_int fl value key d)
  unfolding apply_correction_to_int
  apply_correction_to_int-InInt value key none h = h
  apply_correction_to_int-InInt value key (some d) h =
      rw (apply_correction_to_int_lem value key (some d))
        (shifted_int-InInt (correction_of (some d) key))
    where
      shifted_int-InInt : (c : Option F) → InInt (shifted_int value c)
      shifted_int-InInt none = h
      shifted_int-InInt (some c) = wrap_int-InInt (value +ℤ fl.to_int c)
