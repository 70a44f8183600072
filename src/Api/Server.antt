-- ===== src/Api/Server.antt =====
-- internal/api/server.go: the routes of the REST API, and the life of its server. Of `net/http` this
-- models what the program uses: a `ServeMux` with patterns that have no host, method or wildcard.
-- `cleaned` is the cleaning of a path, to which the mux redirects.
pub mod Laws
pub mod Life
use mqtt_sensor_exporter.Common.{
  ℕ, String, ◌==◌, Bool, true, false, not, ◌&&◌, Option, none, some, List, [], ◌∷◌, Error, wrapf,
  Result, ok, err, Action, if◌then◌else◌, leb,
}
use mqtt_sensor_exporter.Common.Int.{ℤ}
use mqtt_sensor_exporter.Api.Text.{strip_prefix, strip_last, size}
use mqtt_sensor_exporter.Api.Filters.{Request, AlertFilters}
use mqtt_sensor_exporter.Api.Alerts.{AlertDevice}
use mqtt_sensor_exporter.Api.Handler.{Response, handle_alerts}

-- What a client gets: a response of `HandleAlerts`, the constant body of `HandleHealth` with status
-- 200, the mux's 404, or its redirection.
pub data Answer (F : Type 0) : Type 0 where
  response : Response F → Answer F
  healthy : Answer F
  no_route : Answer F
  redirect : String → Answer F

abbrev pub HandlerFunc : Type 0 → Type 0
HandlerFunc F = Request → Answer F

-- `HandleHealth` answers every method alike.
unfoldable pub handle_health : {F : Type 0} → HandlerFunc F
handle_health r = healthy

-- `LoggingMiddleware`: the next handler, with log lines around it.
unfoldable pub logging_middleware : {F : Type 0} → HandlerFunc F → HandlerFunc F
logging_middleware next r = next r

-- The patterns of a mux with their handlers.
abbrev pub Routes : Type 0 → Type 0
Routes F = List (String × HandlerFunc F)

abbrev pub is_some : Option String → Bool
is_some none = false
is_some (some _) = true

-- A pattern that ends with a slash matches every path below it, any other only itself.
unfoldable pub matches : String → String → Bool
matches pattern path =
    if is_some (strip_last b'/' pattern)
    then is_some (strip_prefix pattern path)
    else path == pattern

module _ {F : Type 0} where
  abbrev pub longer :
      String × HandlerFunc F → Option (String × HandlerFunc F) → String × HandlerFunc F
  longer r none = r
  longer r (some other) = if leb (size other.0) (size r.0) then r else other

  -- The longest pattern that matches wins.
  unfoldable pub match_route : Routes F → String → Option (String × HandlerFunc F)
  match_route [] path = none
  match_route (r ∷ rest) path =
      let others = match_route rest path in
      if matches r.0 path then some (longer r others) else others

  unfoldable pub call_route : Option (String × HandlerFunc F) → HandlerFunc F
  call_route none r = no_route
  call_route (some (pattern, handler)) r = handler r

  unfoldable pub serve_mux : (String → String) → Routes F → HandlerFunc F
  serve_mux cleaned routes r =
      if not (r.method == "CONNECT") && not (cleaned r.path == r.path)
      then redirect (cleaned r.path)
      else call_route (match_route routes r.path) r

  module _ (service : AlertFilters → Result (List (AlertDevice F)))
      (parse scan_int : String → Result ℤ) where
    abbrev pub alerts_handler : HandlerFunc F
    alerts_handler r = response (handle_alerts service parse scan_int r)

    -- The registrations of `Start`.
    unfoldable pub api_routes : Routes F
    api_routes =
        ("/api/v2/alerts", alerts_handler)
        ∷ ("/api/v2/alerts/", alerts_handler)
        ∷ ("/health", handle_health)
        ∷ []

    unfoldable pub api_handler : (String → String) → HandlerFunc F
    api_handler cleaned = logging_middleware (serve_mux cleaned api_routes)
