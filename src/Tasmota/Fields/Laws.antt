-- ===== src/Tasmota/Fields/Laws.antt =====
-- What the formatting functions and `getFieldValue` promise.
use mqtt_sensor_exporter.Common.{◌≡◌, refl, String, Bool, true, false, ◌==◌}
use mqtt_sensor_exporter.Common.Int.{ℤ}
use mqtt_sensor_exporter.Common.Decimal.Read.{read_int, read_int-decimal}
use mqtt_sensor_exporter.Tasmota.Fields.{format_int, format_bool}

-- `strconv.ParseBool` of the two texts that are printed.
abbrev pub read_bool : String → Bool
read_bool s = s == "true"

-- Every `int`, of either sign, is printed by `formatInt` as a text that reads back as the number,
-- and every `bool` by `formatBool` likewise: no two values are printed alike.
pub format_round_trip :
    (n : ℤ) (b : Bool) → (read_int (format_int n) ≡ n) × (read_bool (format_bool b) ≡ b)
unfolding format_int format_bool
format_round_trip n true = (read_int-decimal n, refl)
format_round_trip n false = (read_int-decimal n, refl)
