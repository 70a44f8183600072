-- ===== src/Api/Handler/Laws.antt =====
-- Which answer a request gets.
use mqtt_sensor_exporter.Common.{
  ◌≡◌, refl, ap, ◌≢◌, ◌⊎◌, inl, inr, String, ◌==◌, eq_iff, not, List, [], ◌∷◌, length, Result, ok,
  err, arith, if_true, if_false, Bool-cases,
}
use mqtt_sensor_exporter.Common.Int.{ℤ}
use mqtt_sensor_exporter.Api.Filters.{Request, AlertFilters, parse_alert_filters}
use mqtt_sensor_exporter.Api.Alerts.{AlertDevice}
use mqtt_sensor_exporter.Api.Handler.{
  alerts, Response, respond, respond_filtered, handle_alerts, send_error,
}

-- The service's result, and what is answered: 500 after an error, 404 for a device with no alert,
-- and otherwise the alerts with their number.
abbrev pub ServiceOutcome :
    {F : Type 0} → String → Result (List (AlertDevice F)) → Response F → Type 0
ServiceOutcome device_name (err e) answer = answer.code ≡ 500
ServiceOutcome device_name (ok devices) answer =
    ((device_name ≢ "") × (devices ≡ []) × (answer.code ≡ 404))
    ⊎ (((device_name ≡ "") ⊎ (devices ≢ []))
        × (answer ≡ record { code = 200; body = alerts devices (length devices) }))

-- The same for filters that may have been refused.
abbrev pub FiltersOutcome :
    {F : Type 0}
    → (AlertFilters → Result (List (AlertDevice F)))
    → Result AlertFilters
    → Response F
    → Type 0
FiltersOutcome service (err e) answer = answer.code ≡ 400
FiltersOutcome service (ok fs) answer = ServiceOutcome fs.device_name (service fs) answer

respond_lem :
    {F : Type 0} (device_name : String) (served : Result (List (AlertDevice F)))
    → ServiceOutcome device_name served (respond device_name served)
unfolding respond send_error
respond_lem device_name (err e) = refl
respond_lem device_name (ok []) = elim (Bool-cases (device_name == "")) [
  | inl e ↦ inr (inl ((eq_iff device_name "").0 e), rw e refl)
  | inr e ↦ inl (λ same. cc (e, (eq_iff device_name "").1 same), refl, rw e refl)
]
respond_lem device_name (ok (x ∷ devices)) = inr (inr (λ e. cc e), ground arith)

module _ {F : Type 0} (service : AlertFilters → Result (List (AlertDevice F)))
    (parse scan_int : String → Result ℤ) where
  respond_filtered_lem :
      (filters : Result AlertFilters)
      → FiltersOutcome service filters (respond_filtered service parse scan_int filters)
  unfolding respond_filtered send_error
  respond_filtered_lem (err e) = refl
  respond_filtered_lem (ok fs) = respond_lem fs.device_name (service fs)

  -- Every answer: 405 for another method than GET, 400 for filters that do not parse, 500 when the
  -- service fails, 404 when a device is named and has no alert, and else 200 with the alerts and
  -- their number.
  pub handle_alerts_outcome :
      (r : Request)
      → ((r.method ≢ "GET") × ((handle_alerts service parse scan_int r).code ≡ 405))
        ⊎ ((r.method ≡ "GET")
            × FiltersOutcome service
                (parse_alert_filters parse scan_int r)
                (handle_alerts service parse scan_int r))
  unfolding handle_alerts send_error
  handle_alerts_outcome r = elim (Bool-cases (r.method == "GET")) [
    | inl e ↦ inr (
      (eq_iff r.method "GET").0 e,
      rw (if_false (not (r.method == "GET")) _ _ (ap not e))
          (respond_filtered_lem (parse_alert_filters parse scan_int r)),
    )
    | inr e ↦ inl (
      λ same. cc (e, (eq_iff r.method "GET").1 same),
      ap (λ (a : Response F). a.code) (if_true (not (r.method == "GET")) _ _ (ap not e)),
    )
  ]
