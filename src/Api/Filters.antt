-- ===== src/Api/Filters.antt =====
-- internal/api/handler.go: `parseAlertFilters`. A request is its method, its path and its query;
-- `alerts.AlertFilters` has the five fields that are read.
pub mod Path
use mqtt_sensor_exporter.Common.{
  String, ◌==◌, Bool, Option, none, some, List, [], ◌∷◌, Result, ok, err, wrapped, if◌then◌else◌,
  ◌||◌,
}
use mqtt_sensor_exporter.Common.Dict.{Dict, lookup}
use mqtt_sensor_exporter.Common.Int.{ℤ, pos}
use mqtt_sensor_exporter.Api.Text.{strip_prefix, trim_slashes}
use mqtt_sensor_exporter.Api.Duration.{parse_duration}

pub record Request : Type 0 where
  pub method : String
  pub path : String
  pub query : Dict (List String)

pub record AlertFilters : Type 0 where
  pub device_name : String
  pub device_type : String
  pub location : String
  pub room : String
  pub since : ℤ

-- `query.Get(key)`: the first value, or no text.
abbrev first_value : Option (List String) → String
first_value none = ""
first_value (some []) = ""
first_value (some (v ∷ _)) = v

unfoldable pub query_get : String → Dict (List String) → String
query_get key query = first_value (lookup key query)

-- The path is `/api/v2/alerts/` and a rest, or has another form.
unfoldable pub name_of_rest : Option String → String
name_of_rest none = ""
name_of_rest (some rest) = if rest == "" || rest == "/" then "" else trim_slashes rest

unfoldable pub device_name_of_path : String → String
device_name_of_path path = name_of_rest (strip_prefix "/api/v2/alerts/" path)

module _ (parse scan_int : String → Result ℤ) where
  -- An absent `since` is a zero duration.
  unfoldable pub since_of : String → Result ℤ
  since_of text =
      if text == ""
      then ok (pos 0)
      else wrapped "invalid 'since' parameter" (parse_duration parse scan_int text)

  abbrev with_since : AlertFilters → Result ℤ → Result AlertFilters
  with_since filters (err e) = err e
  with_since filters (ok duration) = ok (record filters { since = duration })

  unfoldable pub parse_alert_filters : Request → Result AlertFilters
  parse_alert_filters r =
      with_since
        (record {
          device_name = device_name_of_path r.path;
          device_type = query_get "device-type" r.query;
          location = query_get "location" r.query;
          room = query_get "room" r.query;
          since = pos 0;
        })
        (since_of (query_get "since" r.query))
