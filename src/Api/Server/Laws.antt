-- ===== src/Api/Server/Laws.antt =====
-- Which handler answers a request.
use mqtt_sensor_exporter.Common.{
  ◌≡◌, ◌≢◌, refl, ap, ◌∙◌, String, ◌<>◌, ◌==◌, eq_iff, Bool, true, false, not, ◌&&◌, ◌||◌, Option,
  none, some, List, [], Result, if◌then◌else◌, if_true, if_false,
}
use mqtt_sensor_exporter.Common.Dict.{lookup}
use mqtt_sensor_exporter.Common.Int.{ℤ, pos}
use mqtt_sensor_exporter.Api.Text.{strip_prefix, strip_last}
use mqtt_sensor_exporter.Api.Filters.{
  Request, AlertFilters, parse_alert_filters, query_get, since_of,
}
use mqtt_sensor_exporter.Api.Filters.Path.{NoSlash, strip_prefix-append, device_name_of_path_lem}
use mqtt_sensor_exporter.Api.Alerts.{AlertDevice}
use mqtt_sensor_exporter.Api.Handler.{respond, respond_filtered, handle_alerts}
use mqtt_sensor_exporter.Api.Server.{
  HandlerFunc, longer, alerts_handler, response, healthy, no_route, handle_health,
  logging_middleware, matches, is_some, match_route, call_route, serve_mux, api_routes, api_handler,
}

-- The paths that the alerts are served under.
abbrev pub is_alerts_path : String → Bool
is_alerts_path path = path == "/api/v2/alerts" || is_some (strip_prefix "/api/v2/alerts/" path)

-- What the three patterns match.
matches_routes :
    (path : String)
    → (matches "/api/v2/alerts" path ≡ (path == "/api/v2/alerts"))
      × (matches "/api/v2/alerts/" path ≡ is_some (strip_prefix "/api/v2/alerts/" path))
      × (matches "/health" path ≡ (path == "/health"))
unfolding matches strip_last
matches_routes path = (refl, refl, refl)

module _ {F : Type 0} (service : AlertFilters → Result (List (AlertDevice F)))
    (parse scan_int : String → Result ℤ) where
  -- The mux's choice by which of the three patterns match.
  abbrev chosen : Bool → Bool → Bool → Option (String × HandlerFunc F)
  chosen a b c =
      let health = if c then some (longer ("/health", handle_health) none) else none in
      let below =
        if b
        then some (longer ("/api/v2/alerts/", alerts_handler service parse scan_int) health)
        else health in
      if a
      then some (longer ("/api/v2/alerts", alerts_handler service parse scan_int) below)
      else below

  call_route-chosen :
      (a b c : Bool) (r : Request)
      → call_route (chosen a b c) r ≡ (
          if a || b
          then response (handle_alerts service parse scan_int r)
          else if c
          then healthy
          else no_route)
  unfolding call_route handle_health
  call_route-chosen true true true r = refl
  call_route-chosen true true false r = refl
  call_route-chosen true false true r = refl
  call_route-chosen true false false r = refl
  call_route-chosen false true true r = refl
  call_route-chosen false true false r = refl
  call_route-chosen false false true r = refl
  call_route-chosen false false false r = refl

  match_route-api_routes :
      (path : String)
      → match_route (api_routes service parse scan_int) path
        ≡ chosen
            (path == "/api/v2/alerts")
            (is_some (strip_prefix "/api/v2/alerts/" path))
            (path == "/health")
  unfolding match_route api_routes
  match_route-api_routes path =
      let (alone, below, health) = matches_routes path in rw (alone, below, health)

  -- For a path that is clean: the alerts are served under "/api/v2/alerts" and under every path
  -- below it, the health under "/health" and for every method, and any other path gets the mux's 404.
  pub api_handler_outcome :
      (cleaned : String → String) (r : Request)
      → cleaned r.path ≡ r.path
      → api_handler service parse scan_int cleaned r ≡ (
          if is_alerts_path r.path
          then response (handle_alerts service parse scan_int r)
          else if r.path == "/health"
          then healthy
          else no_route)
  unfolding api_handler logging_middleware serve_mux
  api_handler_outcome cleaned r clean =
      if_false (not (r.method == "CONNECT") && not (cleaned r.path == r.path)) _ _ (
        quiet (r.method == "CONNECT") (cleaned r.path == r.path)
          ((eq_iff (cleaned r.path) r.path).1 clean))
      ∙ ap (λ o. call_route o r) (match_route-api_routes r.path)
      ∙ call_route-chosen (r.path == "/api/v2/alerts") _ (r.path == "/health") r
    where
      quiet : (a b : Bool) → b ≡ true → (not a && not b) ≡ false
      quiet true b e = refl
      quiet false true e = refl
      quiet false false e = cc

  -- A GET under the name of a device, which has no slash and no text in the query: the answer is
  -- that of the service for exactly this device.
  pub api_handler-device :
      (cleaned : String → String) (name : String)
      → NoSlash name
      → name ≢ ""
      → cleaned ("/api/v2/alerts/" <> name) ≡ "/api/v2/alerts/" <> name
      → api_handler service parse scan_int cleaned
          (record { method = "GET"; path = "/api/v2/alerts/" <> name; query = [] })
        ≡ response (
            respond name (
              service (record {
                device_name = name;
                device_type = "";
                location = "";
                room = "";
                since = pos 0;
              })))
  unfolding handle_alerts respond_filtered parse_alert_filters query_get since_of lookup
  api_handler-device cleaned name plain full clean =
      api_handler_outcome cleaned
        (record { method = "GET"; path = "/api/v2/alerts/" <> name; query = [] }) clean
      ∙ if_true (is_alerts_path ("/api/v2/alerts/" <> name)) _ _ below
      ∙ ap
          (λ n. response (
            respond n (
              service (record {
                device_name = n;
                device_type = "";
                location = "";
                room = "";
                since = pos 0;
              }))))
          (device_name_of_path_lem name plain full).0
    where
      either : (a b : Bool) → b ≡ true → (a || b) ≡ true
      either true b e = refl
      either false b e = e

      below : is_alerts_path ("/api/v2/alerts/" <> name) ≡ true
      below = either _ _ (ap is_some (strip_prefix-append "/api/v2/alerts/" name))
