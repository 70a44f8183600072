-- ===== src/Float.antt =====
-- Go's `float64` and the conversions that the program makes: `+`, `>`, `<`, `==`, `float64(n)`,
-- `int(x)` and `strconv.ParseFloat`. The type and its operations are parameters of the model.
use mqtt_sensor_exporter.Common.{◌≤◌, ◌≡◌, Bool, Option, String}
use mqtt_sensor_exporter.Common.Int.{ℤ, pos_part, neg_part}

pub record Float64 (F : Type 0) : Type 0 where
  pub add : F → F → F
  pub gt : F → F → Bool
  pub lt : F → F → Bool
  pub eq : F → F → Bool
  pub of_int : ℤ → F
  pub to_int : F → ℤ
  -- `none` is a `*NumError`.
  pub parse : String → Option F

-- Integers of at most 53 bits.
abbrev pub InMantissa : ℤ → Type 0
InMantissa n = (pos_part n ≤ 9007199254740992) × (neg_part n ≤ 9007199254740992)

-- What IEEE 754 says of the conversions: such an integer is a `float64` exactly.
pub record IsExact {F : Type 0} (fl : Float64 F) : Type 0 where
  pub to_int-of_int : (n : ℤ) → InMantissa n → fl.to_int (fl.of_int n) ≡ n
