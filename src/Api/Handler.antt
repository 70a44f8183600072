-- ===== src/Api/Handler.antt =====
-- internal/api/handler.go: `HandleAlerts` and `sendError`. A response is its status and its body;
-- the timestamps and the JSON encoding are left out.
pub mod Laws
use mqtt_sensor_exporter.Common.{
  ℕ, String, ◌<>◌, ◌==◌, Bool, true, false, not, ◌&&◌, Option, List, [], ◌∷◌, length, Error, Result,
  ok, err, if◌then◌else◌,
}
use mqtt_sensor_exporter.Common.Int.{ℤ}
use mqtt_sensor_exporter.Api.Filters.{Request, AlertFilters, parse_alert_filters}
use mqtt_sensor_exporter.Api.Alerts.{AlertDevice}

-- `AlertsResponse` and `ErrorResponse`; the text of a bad request is followed by its error.
pub data Body (F : Type 0) : Type 0 where
  alerts : List (AlertDevice F) → ℕ → Body F
  message : String → Body F
  message_of : String → Error → Body F

pub record Response (F : Type 0) : Type 0 where
  pub code : ℕ
  pub body : Body F

module _ {F : Type 0} where
  unfoldable pub send_error : Body F → ℕ → Response F
  send_error body code = record { code = code; body = body }

  abbrev is_empty : List (AlertDevice F) → Bool
  is_empty [] = true
  is_empty (_ ∷ _) = false

  unfoldable pub respond : String → Result (List (AlertDevice F)) → Response F
  respond device_name (err e) = send_error (message "Failed to retrieve alerts") 500
  respond device_name (ok devices) =
      if not (device_name == "") && is_empty devices
      then send_error (message ("Device '" <> device_name <> "' not found or has no active alerts"))
          404
      else record { code = 200; body = alerts devices (length devices) }

  -- `service` is `GetTriggeredAlerts`.
  module _ (service : AlertFilters → Result (List (AlertDevice F)))
      (parse scan_int : String → Result ℤ) where
    unfoldable pub respond_filtered : Result AlertFilters → Response F
    respond_filtered (err e) = send_error (message_of "Invalid filter parameters: " e) 400
    respond_filtered (ok filters) = respond filters.device_name (service filters)

    unfoldable pub handle_alerts : Request → Response F
    handle_alerts r =
        if not (r.method == "GET")
        then send_error (message "Method not allowed") 405
        else respond_filtered (parse_alert_filters parse scan_int r)
