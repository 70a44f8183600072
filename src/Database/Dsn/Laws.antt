-- ===== src/Database/Dsn/Laws.antt =====
-- What the TLS configuration of a connection verifies.
use mqtt_sensor_exporter.Common.{
  ◌≡◌, refl, String, Bool, true, ◌||◌, Option, none, some, [], ◌∷◌, ◌==◌, if◌then◌else◌, Ensures,
  Ensures-and_next, Ensures-Unit, arith,
}
use mqtt_sensor_exporter.Kube.{Database, Cluster}
use mqtt_sensor_exporter.Database.Driver.{Driver, TlsConfig, empty_tls}
use mqtt_sensor_exporter.Database.Dsn.{
  ssl_mode_of, read_secret, password_part, trusting, ca_config, or_empty, load_key_pair,
  client_config, build_dsn,
}

-- The modes that go without verification when there is no CA certificate.
abbrev pub is_lax : Database → Bool
is_lax database = ssl_mode_of database == "require" || ssl_mode_of database == "prefer"

-- The server name that is verified.
abbrev pub verified_name : Database → String
verified_name database = if ssl_mode_of database == "verify-full" then database.host else ""

module _ {W H Pool Cert Config : Type 0} (cluster : Cluster W)
    (driver : Driver W H Pool Cert Config) (database : Database) where
  -- What the CA part has set, by the reference that it was given.
  abbrev pub CaSpec : Option String → Option (TlsConfig Pool Cert) → Type 0
  CaSpec (some secret) ca =
      (pool : Pool) × (ca
        ≡ some (record empty_tls { root_cas = some pool; server_name = verified_name database }))
  CaSpec none ca =
      ca
      ≡ (if is_lax database then some (record empty_tls { insecure_skip_verify = true }) else none)

  ca_config-CaSpec :
      (ref : Option String) (w : W)
      → Ensures (CaSpec ref) (ca_config cluster driver database ref w).1
  unfolding ca_config
  ca_config-CaSpec none w = refl
  ca_config-CaSpec (some secret) w =
      Ensures-and_next (λ _. Unit {0}) (CaSpec (some secret))
        (read_secret cluster database.namespace secret "ca.crt" w)
        (λ cert. trusting cluster driver database secret (driver.append_certs cert))
        (Ensures-Unit _) (λ cert w₁ _. go w₁ (driver.append_certs cert))
    where
      go :
          (w₁ : W) (pool : Option Pool)
          → Ensures (CaSpec (some secret)) (trusting cluster driver database secret pool w₁).1
      go w₁ none = tt
      go w₁ (some pool) = (pool, refl)

  -- What the client part has added: nothing, or a certificate.
  abbrev pub ClientSpec :
      Option String → Option (TlsConfig Pool Cert) → Option (TlsConfig Pool Cert) → Type 0
  ClientSpec none ca tls = tls ≡ ca
  ClientSpec (some secret) ca tls =
      (cert : Cert) × (tls
        ≡ some (record (or_empty cluster driver ca) { certificates = cert ∷ [] }))

  client_config-ClientSpec :
      (ref : Option String) (ca : Option (TlsConfig Pool Cert)) (w : W)
      → Ensures (ClientSpec ref ca) (client_config cluster driver database ref ca w).1
  unfolding client_config
  client_config-ClientSpec none ca w = refl
  client_config-ClientSpec (some secret) ca w =
      Ensures-and_next (λ _. Unit {0}) (ClientSpec (some secret) ca)
        (read_secret cluster database.namespace secret "tls.crt" w) _ (Ensures-Unit _)
        λ cert_pem w₁ _.
          Ensures-and_next (λ _. Unit {0}) (ClientSpec (some secret) ca)
            (read_secret cluster database.namespace secret "tls.key" w₁) _ (Ensures-Unit _)
            λ key_pem w₂ _.
              Ensures-and_next (λ _. Unit {0}) (ClientSpec (some secret) ca)
                (load_key_pair cluster driver cert_pem key_pem w₂) _ (Ensures-Unit _)
                λ cert w₃ _. (cert, refl)

  -- The two parts together, for the configuration that `buildDSN` returns.
  abbrev pub TlsSpec : Option (TlsConfig Pool Cert) → Type 0
  TlsSpec tls =
      (ca : Option (TlsConfig Pool Cert)) × CaSpec database.ca_secret ca
      × ClientSpec database.client_cert_secret ca tls

  pub build_dsn-TlsSpec :
      (w : W) → Ensures (λ r. TlsSpec r.1) (build_dsn cluster driver database w).1
  unfolding build_dsn
  build_dsn-TlsSpec w =
      Ensures-and_next (λ _. Unit {0}) (λ r. TlsSpec r.1)
        (password_part cluster database database.password_secret w) _ (Ensures-Unit _)
        λ password w₁ _.
          Ensures-and_next (CaSpec database.ca_secret) (λ r. TlsSpec r.1)
            (ca_config cluster driver database database.ca_secret w₁) _
            (ca_config-CaSpec database.ca_secret w₁)
            λ ca w₂ spec.
              Ensures-and_next (ClientSpec database.client_cert_secret ca) (λ r. TlsSpec r.1)
                (client_config cluster driver database database.client_cert_secret ca w₂) _
                (client_config-ClientSpec database.client_cert_secret ca w₂)
                λ tls w₃ more. (ca, spec, more)

  -- The certificate aside, the configuration is the one of the CA part.
  abbrev pub SameChecks : Option (TlsConfig Pool Cert) → TlsConfig Pool Cert → Type 0
  SameChecks ca c =
      let base = or_empty cluster driver ca in
      (c.insecure_skip_verify ≡ base.insecure_skip_verify)
      × (c.server_name ≡ base.server_name)
      × (c.root_cas ≡ base.root_cas)

  pub ClientSpec-SameChecks :
      (ref : Option String) (ca : Option (TlsConfig Pool Cert)) (c : TlsConfig Pool Cert)
      → ClientSpec ref ca (some c)
      → SameChecks ca c
  ClientSpec-SameChecks none ca c e = rw (← e) (refl, refl, refl)
  ClientSpec-SameChecks (some secret) ca c (cert, e) = ground arith
