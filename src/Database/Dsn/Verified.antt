-- ===== src/Database/Dsn/Verified.antt =====
-- When the TLS configuration of a connection goes without verification, and when `crypto/tls` can
-- use it at all.
use mqtt_sensor_exporter.Common.{
  ◌≡◌, refl, ap, sym, ◌∙◌, ◌↔◌, ◌≢◌, ◌⊎◌, inl, inr, String, true, false, Option, none, some, ◌==◌,
  eq_iff, Bool-cases, ok, Ensures-at,
}
use mqtt_sensor_exporter.Kube.{Database, Cluster}
use mqtt_sensor_exporter.Database.Driver.{Driver, TlsConfig}
use mqtt_sensor_exporter.Database.Dsn.{ssl_mode_of, or_empty, build_dsn}
use mqtt_sensor_exporter.Database.Dsn.Laws.{
  is_lax, verified_name, CaSpec, TlsSpec, SameChecks, build_dsn-TlsSpec, ClientSpec-SameChecks,
}

-- `crypto/tls` starts no handshake with neither a server name nor `InsecureSkipVerify`.
abbrev pub IsUsable : {Pool Cert : Type 0} → TlsConfig Pool Cert → Type 0
IsUsable c = (c.server_name ≢ "") ⊎ (c.insecure_skip_verify ≡ true)

module _ {W H Pool Cert Config : Type 0} (cluster : Cluster W)
    (driver : Driver W H Pool Cert Config) (database : Database) where
  checks :
      (w w' : W) (dsn : String) (c : TlsConfig Pool Cert)
      → build_dsn cluster driver database w ≡ (w', ok (dsn, some c))
      → (ca : Option (TlsConfig Pool Cert)) × CaSpec cluster driver database database.ca_secret ca
        × SameChecks cluster driver database ca c
  checks w w' dsn c e =
      let (ca, spec, more) =
        Ensures-at (λ r. TlsSpec cluster driver database r.1) _ (dsn, some c)
          (build_dsn-TlsSpec cluster driver database w) (ap (λ s. s.1) e) in
      (
        ca,
        spec,
        ClientSpec-SameChecks cluster driver database database.client_cert_secret ca c more,
      )

  -- The two checks of the CA part, by the reference that it was given.
  base_none :
      (ca : Option (TlsConfig Pool Cert))
      → CaSpec cluster driver database none ca
      → ((or_empty cluster driver ca).insecure_skip_verify ≡ is_lax database)
        × ((or_empty cluster driver ca).server_name ≡ "")
  base_none ca spec = elim (Bool-cases (is_lax database)) [
    | inl lax ↦ rw (spec, lax) (refl, refl)
    | inr strict ↦ rw (spec, strict) (refl, refl)
  ]

  insecure_of_checks :
      (ref : Option String) (ca : Option (TlsConfig Pool Cert)) (c : TlsConfig Pool Cert)
      → CaSpec cluster driver database ref ca
      → SameChecks cluster driver database ca c
      → (c.insecure_skip_verify ≡ true) ↔ ((ref ≡ none) × (is_lax database ≡ true))
  insecure_of_checks none ca c spec same =
      let e : c.insecure_skip_verify ≡ is_lax database = same.0 ∙ (base_none ca spec).0 in
      (λ h. (refl, sym e ∙ h), λ h. e ∙ h.1)
  insecure_of_checks (some secret) ca c (pool, spec) same =
      let e : c.insecure_skip_verify ≡ false = same.0 ∙ rw spec in (λ h. cc, λ h. cc)

  IsUsable-checks :
      (ref : Option String) (ca : Option (TlsConfig Pool Cert)) (c : TlsConfig Pool Cert)
      → CaSpec cluster driver database ref ca
      → SameChecks cluster driver database ca c
      → IsUsable c ↔ (
          ((ref ≡ none) × (is_lax database ≡ true))
          ⊎ ((ref ≢ none) × (ssl_mode_of database ≡ "verify-full") × (database.host ≢ "")))
  IsUsable-checks none ca c spec same =
      let name : c.server_name ≡ "" = same.1 ∙ (base_none ca spec).1 in
      let both = insecure_of_checks none ca c spec same in
      (
        λ h. elim h [ inl p ↦ absurd (p name) | inr q ↦ inl (both.0 q) ],
        λ h. elim h [ inl p ↦ inr (both.1 p) | inr q ↦ absurd (q.0 refl) ],
      )
  IsUsable-checks (some secret) ca c (pool, spec) same =
      let name : c.server_name ≡ verified_name database = same.1 ∙ rw spec in
      let secure : c.insecure_skip_verify ≡ false = same.0 ∙ rw spec in
      let strict = eq_iff (ssl_mode_of database) "verify-full" in
      elim (Bool-cases (ssl_mode_of database == "verify-full")) [
        | inl full ↦
            let host : c.server_name ≡ database.host = name ∙ rw full in
            (
              λ h. elim h [
                | inl p ↦ inr (λ q. some_ne_none q, strict.0 full, λ q. p (host ∙ q))
                | inr q ↦ absurd (true_ne_false (sym q ∙ secure))
              ],
              λ h. elim h [
                | inl q ↦ absurd (some_ne_none q.0)
                | inr q ↦ inl (λ r. q.2 (sym host ∙ r))
              ],
            )
        | inr weak ↦
            let empty : c.server_name ≡ "" = name ∙ rw weak in
            (
              λ h. elim h [
                | inl p ↦ absurd (p empty)
                | inr q ↦ absurd (true_ne_false (sym q ∙ secure))
              ],
              λ h. elim h [
                | inl q ↦ absurd (some_ne_none q.0)
                | inr q ↦ absurd (true_ne_false (sym (strict.1 q.1) ∙ weak))
              ],
            )
      ]
    where
      true_ne_false : true ≡ false → ⊥
      true_ne_false q = cc

      some_ne_none : some secret ≡ none → ⊥
      some_ne_none q = cc

  -- When a TLS configuration is returned, the server's certificate goes unverified exactly when the
  -- database names no CA secret and its SSL mode, "require" by default, is "require" or "prefer".
  pub build_dsn-insecure_iff :
      (w w' : W) (dsn : String) (c : TlsConfig Pool Cert)
      → build_dsn cluster driver database w ≡ (w', ok (dsn, some c))
      → (c.insecure_skip_verify ≡ true) ↔ ((database.ca_secret ≡ none) × (is_lax database ≡ true))
  build_dsn-insecure_iff w w' dsn c e =
      let (ca, spec, same) = checks w w' dsn c e in
      insecure_of_checks database.ca_secret ca c spec same

  -- When a TLS configuration is returned, `crypto/tls` can use it exactly when verification is off
  -- (no CA secret, and mode "require" or "prefer"), or when there is a CA secret, the mode is
  -- "verify-full" and the host is not empty.
  pub build_dsn-IsUsable_iff :
      (w w' : W) (dsn : String) (c : TlsConfig Pool Cert)
      → build_dsn cluster driver database w ≡ (w', ok (dsn, some c))
      → IsUsable c ↔ (
          ((database.ca_secret ≡ none) × (is_lax database ≡ true))
          ⊎ ((database.ca_secret ≢ none)
              × (ssl_mode_of database ≡ "verify-full")
              × (database.host ≢ "")))
  build_dsn-IsUsable_iff w w' dsn c e =
      let (ca, spec, same) = checks w w' dsn c e in
      IsUsable-checks database.ca_secret ca c spec same
