-- ===== src/Mqtt/Options.antt =====
-- internal/mqtt/manager.go: the credentials and the client options of a bridge.
use mqtt_sensor_exporter.Common.{
  String, ◌<>◌, Bool, Option, none, some, ◌==◌, if◌then◌else◌, Result, ok, err, wrapped,
}
use mqtt_sensor_exporter.Common.Dict.{Dict, lookup}
use mqtt_sensor_exporter.Common.Decimal.{decimal}
use mqtt_sensor_exporter.Kube.{Cluster}
use mqtt_sensor_exporter.Mqtt.Types.{SecretRef, TlsSpec, Bridge, ClientOptions}

-- `string(secret.Data[key])`: a missing key is an empty text.
abbrev text_of : Option String → String
text_of none = ""
text_of (some s) = s

abbrev pair_of : Result (Dict String) → Result (String × String)
pair_of (err e) = err e
pair_of (ok secret) = ok (text_of (lookup "username" secret), text_of (lookup "password" secret))

module _ {W : Type 0} (cluster : Cluster W) where
  unfoldable pub get_credentials : W → Bridge → SecretRef → Result (String × String)
  get_credentials w bridge ref =
      let namespace = if ref.namespace == "" then bridge.namespace else ref.namespace in
      pair_of (cluster.get_secret w namespace ref.name)

  -- No reference leaves both texts empty.
  unfoldable pub login_of : W → Bridge → Option SecretRef → Result (String × String)
  login_of w bridge none = ok ("", "")
  login_of w bridge (some ref) = wrapped "failed to get credentials" (get_credentials w bridge ref)

abbrev address : Bridge → String
address bridge = bridge.host <> ":" <> decimal bridge.port

abbrev tls_of : Option TlsSpec → Option Bool
tls_of none = none
tls_of (some tls) = if tls.enabled then some tls.insecure_skip_verify else none

abbrev scheme : Option Bool → String
scheme none = "tcp://"
scheme (some _) = "ssl://"

unfoldable pub client_options : Bridge → String × String → ClientOptions
client_options bridge (username, password) = record {
  broker = scheme (tls_of bridge.tls) <> address bridge;
  tls_insecure = tls_of bridge.tls;
  login = if username == "" then none else some (username, password);
  client_id =
      if bridge.client_id == ""
      then "mqtt-sensor-exporter-" <> bridge.namespace <> "-" <> bridge.name
      else bridge.client_id;
}
