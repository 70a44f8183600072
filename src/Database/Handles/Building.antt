-- ===== src/Database/Handles/Building.antt =====
-- The steps of `Connect` up to the driver's answer, and which pools they leave open.
use mqtt_sensor_exporter.Common.{
  ◌≡◌, inl, inr, String, Bool, true, Option, none, some, Bool-cases, Result, ok, err, Action, ◌>>=◌,
  and_next, with_context,
}
use mqtt_sensor_exporter.Kube.{Database, Cluster}
use mqtt_sensor_exporter.Database.Driver.{Driver, TlsConfig}
use mqtt_sensor_exporter.Database.Dsn.{
  get_secret_value, read_secret, password_part, trusting, ca_config, load_key_pair, client_config,
  build_dsn,
}
use mqtt_sensor_exporter.Database.Manager.{build_step, parse_step, open_tls_step, open_db}
use mqtt_sensor_exporter.Database.Handles.{Keeps, KeepsAll, Opens, IsPooled}

module _ {W H : Type 0} (is_open : W → H → Bool) where
  -- A chain closes no pool if none of its steps does.
  pub KeepsAll-bind :
      {A B : Type 0} (m : Action W A) (f : A → Action W B)
      → KeepsAll is_open m
      → ((a : A) → KeepsAll is_open (f a))
      → KeepsAll is_open (m >>= f)
  KeepsAll-bind {A} m f keeps later w j o = go (m w) (keeps w j o)
    where
      go : (step : W × Result A) → is_open step.0 j ≡ true → is_open (and_next step f).0 j ≡ true
      go (w', ok a) o' = later a w' j o'
      go (w', err e) o' = o'

  pub Opens-with_context :
      (text : String) (w : W) (step : W × Result H)
      → Opens is_open w step
      → Opens is_open w (with_context text step)
  Opens-with_context text w (w', ok h) opens = opens
  Opens-with_context text w (w', err e) opens = opens

  -- What was not open after some steps that close nothing was not open before them.
  pub Opens-after :
      (w w₁ : W) (step : W × Result H)
      → Keeps is_open w w₁
      → Opens is_open w₁ step
      → Opens is_open w step
  Opens-after w w₁ (w', ok h) keeps (new, is_there, later) = (
    elim (Bool-cases (is_open w h)) [ inl e ↦ cc (keeps h e, new) | inr e ↦ e ],
    is_there,
    λ j o. later j (keeps j o),
  )
  Opens-after w w₁ (w', err e) keeps later = λ j o. later j (keeps j o)

  pub Opens-bind :
      {A : Type 0} (m : Action W A) (f : A → Action W H)
      → KeepsAll is_open m
      → ((a : A) (w : W) → Opens is_open w (f a w))
      → (w : W) → Opens is_open w ((m >>= f) w)
  Opens-bind {A} m f keeps opens w = go (m w) (keeps w)
    where
      go : (step : W × Result A) → Keeps is_open w step.0 → Opens is_open w (and_next step f)
      go (w', ok a) kept = Opens-after w w' (f a w') kept (opens a w')
      go (w', err e) kept = kept

module _ {W H Pool Cert Config : Type 0} (is_open : W → H → Bool) (cluster : Cluster W)
    (driver : Driver W H Pool Cert Config) (pooled : IsPooled is_open driver) where
  pub password_part-KeepsAll :
      (database : Database) (o : Option String)
      → KeepsAll is_open (password_part cluster database o)
  unfolding password_part read_secret get_secret_value
  password_part-KeepsAll database none = λ w j o. o
  password_part-KeepsAll database (some secret) =
      KeepsAll-bind is_open (read_secret cluster database.namespace secret "password") _
        (λ w j o. o) (λ a w j o. o)

  pub ca_config-KeepsAll :
      (database : Database) (o : Option String)
      → KeepsAll is_open (ca_config cluster driver database o)
  unfolding ca_config read_secret get_secret_value
  ca_config-KeepsAll database none = λ w j o. o
  ca_config-KeepsAll database (some secret) =
      KeepsAll-bind is_open (read_secret cluster database.namespace secret "ca.crt") _ (λ w j o. o)
        (λ a. trusted (driver.append_certs a))
    where
      trusted : (p : Option Pool) → KeepsAll is_open (trusting cluster driver database secret p)
      trusted none w j o = o
      trusted (some pool) w j o = o

  pub client_config-KeepsAll :
      (database : Database) (o : Option String) (tls : Option (TlsConfig Pool Cert))
      → KeepsAll is_open (client_config cluster driver database o tls)
  unfolding client_config read_secret get_secret_value load_key_pair
  client_config-KeepsAll database none tls = λ w j o. o
  client_config-KeepsAll database (some secret) tls =
      KeepsAll-bind is_open (read_secret cluster database.namespace secret "tls.crt") _ (λ w j o. o)
        (λ cert_pem.
          KeepsAll-bind is_open (read_secret cluster database.namespace secret "tls.key") _
            (λ w j o. o)
            (λ key_pem.
              KeepsAll-bind is_open (load_key_pair cluster driver cert_pem key_pem) _ (λ w j o. o)
                (λ cert w j o. o)))

  pub build_step-KeepsAll :
      (database : Database) → KeepsAll is_open (build_step cluster driver database)
  unfolding build_step build_dsn
  build_step-KeepsAll database =
      KeepsAll-bind is_open (password_part cluster database database.password_secret) _
        (password_part-KeepsAll database database.password_secret)
        (λ a.
          KeepsAll-bind is_open (ca_config cluster driver database database.ca_secret) _
            (ca_config-KeepsAll database database.ca_secret)
            (λ ca.
              KeepsAll-bind is_open
                (client_config cluster driver database database.client_cert_secret ca) _
                (client_config-KeepsAll database database.client_cert_secret ca) (λ tls w j o. o)))

  pub open_db-Opens :
      (dsn : String) (tls : Option (TlsConfig Pool Cert)) (w : W)
      → Opens is_open w (open_db cluster driver dsn tls w)
  unfolding open_db parse_step open_tls_step
  open_db-Opens dsn none w =
      Opens-with_context is_open _ w (driver.open_plain w dsn) (pooled.opens_plain w dsn)
  open_db-Opens dsn (some tls) w =
      Opens-bind is_open (parse_step cluster driver dsn) _ (λ w' j o. o)
        (λ config w'.
          Opens-with_context is_open _ w' (driver.open_tls w' config tls)
            (pooled.opens_tls w' config tls))
        w
