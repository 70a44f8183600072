-- ===== src/Database/Driver.antt =====
-- The parts of `crypto/x509`, `crypto/tls`, `pgx`, `database/sql` and the migrations of
-- `database-iot-gorm` that a connection needs, as a record over the world `W`, handles `H`,
-- certificate pools `Pool`, client certificates `Cert` and parsed configurations `Config`.
use mqtt_sensor_exporter.Common.{String, Bool, false, Option, none, List, [], Result}
use mqtt_sensor_exporter.Common.Int.{ℤ}

-- The fields of `tls.Config` that the program sets.
pub record TlsConfig (Pool Cert : Type 0) : Type 0 where
  pub root_cas : Option Pool
  pub server_name : String
  pub insecure_skip_verify : Bool
  pub certificates : List Cert

-- `&tls.Config{}`
abbrev pub empty_tls : {Pool Cert : Type 0} → TlsConfig Pool Cert
empty_tls = record {
  root_cas = none;
  server_name = "";
  insecure_skip_verify = false;
  certificates = [];
}

pub record Driver (W H Pool Cert Config : Type 0) : Type 0 where
  -- `AppendCertsFromPEM` on a new pool; `none` where it returns false.
  pub append_certs : String → Option Pool
  pub key_pair : String → String → Result Cert
  pub parse_config : String → Result Config
  pub open_plain : W → String → W × Result H
  pub open_tls : W → Config → TlsConfig Pool Cert → W × Result H
  -- `db.DB()`, and `Close` of what it returns.
  pub sql_db : W → H → Result (Unit {0})
  pub close : W → H → W
  pub set_max_open_conns : W → H → ℤ → W
  pub set_max_idle_conns : W → H → ℤ → W
  pub run_migrations : W → H → List String → W × Result (Unit {0})
