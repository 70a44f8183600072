-- ===== src/Database/Dsn.antt =====
-- internal/database/manager.go: `buildDSN` and `getSecretValue`.
pub mod Laws
pub mod Verified
use mqtt_sensor_exporter.Common.{
  String, ◌<>◌, Bool, true, ◌||◌, Option, none, some, [], ◌∷◌, ◌==◌, if◌then◌else◌, Error, errorf,
  Result, ok, err, Action, ◌>>=◌, return, fail, with_context,
}
use mqtt_sensor_exporter.Common.Dict.{lookup, Dict}
use mqtt_sensor_exporter.Common.Decimal.{decimal}
use mqtt_sensor_exporter.Kube.{Database, Cluster}
use mqtt_sensor_exporter.Database.Driver.{Driver, TlsConfig, empty_tls}

unfoldable pub ssl_mode_of : Database → String
ssl_mode_of database = if database.ssl_mode == "" then "require" else database.ssl_mode

-- The fixed part of the text.
unfoldable pub dsn_head : Database → String
dsn_head d =
    "host="
    <> d.host
    <> " port="
    <> decimal d.port
    <> " dbname="
    <> d.database
    <> " user="
    <> d.username

module _ {W : Type 0} (cluster : Cluster W) where
  abbrev key_of : String → String → Result (Dict String) → Result String
  key_of secret_name key (err e) = err e
  key_of secret_name key (ok secret) = elim (lookup key secret) [
    | none ↦ err (errorf ("key " <> key <> " not found in secret " <> secret_name))
    | some value ↦ ok value
  ]

  unfoldable pub get_secret_value : String → String → String → Action W String
  get_secret_value namespace secret_name key w =
      (w, key_of secret_name key (cluster.get_secret w namespace secret_name))

  -- The reads of `buildDSN`, whose errors are wrapped.
  unfoldable pub read_secret : String → String → String → Action W String
  read_secret namespace secret_name key w =
      with_context "failed to connect to database" (get_secret_value namespace secret_name key w)

  unfoldable pub password_part : Database → Option String → Action W String
  password_part database none = return ""
  password_part database (some secret) = do
    password ← read_secret database.namespace secret "password"
    return (" password=" <> password)

module _ {W H Pool Cert Config : Type 0} (cluster : Cluster W)
    (driver : Driver W H Pool Cert Config) where
  abbrev pub trusting : Database → String → Option Pool → Action W (Option (TlsConfig Pool Cert))
  trusting database secret none =
      fail
        (errorf ("failed to parse CA certificate from secret " <> secret <> ": invalid PEM format"))
  trusting database secret (some pool) = return (
      some (record empty_tls {
        root_cas = some pool;
        server_name = if ssl_mode_of database == "verify-full" then database.host else "";
      }))

  -- The part about the CA certificate.
  unfoldable pub ca_config : Database → Option String → Action W (Option (TlsConfig Pool Cert))
  ca_config database (some secret) = do
    ca_cert ← read_secret cluster database.namespace secret "ca.crt"
    trusting database secret (driver.append_certs ca_cert)
  ca_config database none = return (
      if ssl_mode_of database == "require" || ssl_mode_of database == "prefer"
      then some (record empty_tls { insecure_skip_verify = true })
      else none)

  abbrev pub or_empty : Option (TlsConfig Pool Cert) → TlsConfig Pool Cert
  or_empty none = empty_tls
  or_empty (some tls) = tls

  unfoldable pub load_key_pair : String → String → Action W Cert
  load_key_pair cert_pem key_pem w =
      with_context "failed to connect to database" (w, driver.key_pair cert_pem key_pem)

  -- The part about the client certificate.
  unfoldable pub client_config :
      Database
      → Option String
      → Option (TlsConfig Pool Cert)
      → Action W (Option (TlsConfig Pool Cert))
  client_config database none tls = return tls
  client_config database (some secret) tls = do
    cert_pem ← read_secret cluster database.namespace secret "tls.crt"
    key_pem ← read_secret cluster database.namespace secret "tls.key"
    cert ← load_key_pair cert_pem key_pem
    return (some (record (or_empty tls) { certificates = cert ∷ [] }))

  unfoldable pub build_dsn : Database → Action W (String × Option (TlsConfig Pool Cert))
  build_dsn database = do
    password ← password_part cluster database database.password_secret
    ca ← ca_config database database.ca_secret
    tls ← client_config database database.client_cert_secret ca
    return (dsn_head database <> password <> " sslmode=" <> ssl_mode_of database, tls)
