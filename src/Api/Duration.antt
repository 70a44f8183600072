-- ===== src/Api/Duration.antt =====
-- internal/api/handler.go: `parseDuration`. Durations are in nanoseconds. `time.ParseDuration` and
-- `fmt.Sscanf(s, "%d", &days)` are the arguments `parse` and `scan_int`.
pub mod Units
use Prim.Native.String.{String}
use mqtt_sensor_exporter.Common.{Option, none, some, Result, ok, err}
use mqtt_sensor_exporter.Common.Int.{ℤ, pos, ◌*ℤ◌, wrap_int}
use mqtt_sensor_exporter.Api.Text.{trim_space, replace_all, strip_last}

-- `time.Hour` and `time.Minute`
abbrev pub hour : ℤ
hour = pos 3600000000000

abbrev pub minute : ℤ
minute = pos 60000000000

-- The text with the abbreviations put in.
unfoldable pub abbreviated : String → String
unfolding trim_space replace_all
abbreviated s =
    replace_all
      (replace_all (replace_all (replace_all (trim_space s) "min" "m") "hour" "h") "sec" "s") "day"
      "h"

abbrev pub days_to_duration : Result ℤ → Result ℤ
days_to_duration (err e) = err e
days_to_duration (ok days) = ok (wrap_int (wrap_int (days *ℤ pos 24) *ℤ hour))

module _ (parse scan_int : String → Result ℤ) where
  -- A final "d" counts days.
  abbrev pub parse_stem : String → Option String → Result ℤ
  parse_stem s none = parse s
  parse_stem s (some days) = days_to_duration (scan_int days)

  unfoldable pub parse_duration : String → Result ℤ
  unfolding abbreviated strip_last
  parse_duration s = parse_stem (abbreviated s) (strip_last b'd' (abbreviated s))
