-- ===== src/Examples/Server.antt =====
-- The theorems on the API's server and on the entry point, applied.
use mqtt_sensor_exporter.Common.{
  ◌≡◌, refl, String, true, List, [], ◌∷◌, ◌++◌, errorf, Result, ok, err,
}
use mqtt_sensor_exporter.Common.Int.{ℤ}
use mqtt_sensor_exporter.Api.Text.{strip_prefix}
use mqtt_sensor_exporter.Api.Filters.{Request, AlertFilters}
use mqtt_sensor_exporter.Api.Alerts.{AlertDevice}
use mqtt_sensor_exporter.Api.Server.{healthy, api_handler}
use mqtt_sensor_exporter.Api.Server.Laws.{api_handler_outcome}
use mqtt_sensor_exporter.Main.{ServerTls, default_flags, Setup, serves_api, main}
use mqtt_sensor_exporter.Main.Laws.{Stage, IsLogged, MainOutcome, plan, main_outcome}

-- A service without alerts, and durations that do not parse.
abbrev quiet : AlertFilters → Result (List (AlertDevice ℤ))
quiet filters = ok []

abbrev unreadable : String → Result ℤ
unreadable s = err (errorf "invalid duration")

abbrev probe : Request
probe = record { method = "POST"; path = "/health"; query = [] }

api_handler_outcome_example : api_handler quiet unreadable unreadable (λ p. p) probe ≡ healthy
unfolding strip_prefix
api_handler_outcome_example = api_handler_outcome quiet unreadable unreadable (λ p. p) probe refl

abbrev plain_tls : ServerTls
plain_tls = record { next_protos = [] }

-- A setup whose readiness check fails, in a world that is the log.
abbrev unready : Setup (List Stage) (Unit {0})
unready = record {
  new_manager = λ o w. (w ++ Stage.manager ∷ [], ok tt);
  new_logger = λ w. (w ++ Stage.logger ∷ [], ok tt);
  watch_databases = λ m ns trigger w. (w ++ Stage.database_watcher ∷ [], ok tt);
  watch_bridges = λ m ns trigger w. (w ++ Stage.bridge_watcher ∷ [], ok tt);
  launch_api = λ m server w. w ++ Stage.api_server ∷ [];
  add_healthz = λ m w. (w ++ Stage.health_check ∷ [], ok tt);
  add_readyz = λ m w. (w ++ Stage.ready_check ∷ [], err (errorf "taken"));
  start = λ m w. (w ++ Stage.run ∷ [], ok tt);
}

unready-IsLogged : IsLogged unready (λ w. w)
unready-IsLogged = record {
  logs_manager = λ o w. refl;
  logs_logger = λ w. refl;
  logs_databases = λ m ns trigger w. refl;
  logs_bridges = λ m ns trigger w. refl;
  logs_api = λ m server w. refl;
  logs_health = λ m w. refl;
  logs_ready = λ m w. refl;
  logs_run = λ m w. refl;
}

main_outcome_example :
    MainOutcome
      (plan true)
      []
      (main unready default_flags "" []).0
      (main unready default_flags "" []).1
unfolding serves_api
main_outcome_example = main_outcome unready (λ w. w) unready-IsLogged default_flags "" []
