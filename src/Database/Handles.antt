-- ===== src/Database/Handles.antt =====
-- internal/database/manager.go: which connection pools are open while calls of `Connect` and
-- `Disconnect` close and open them. Each call holds the manager's lock, so it is one step. The queries
-- of internal/api hold no lock: they run between any two steps, on a handle that they were given.
pub mod Building
pub mod Opening
pub mod Closing
pub mod Reached
use mqtt_sensor_exporter.Common.{
  ◌≡◌, ◌≢◌, String, Bool, true, false, Option, none, some, List, not, ◌==◌, Result, ok, err, Action,
}
use mqtt_sensor_exporter.Common.Dict.{lookup}
use mqtt_sensor_exporter.Common.Int.{ℤ}
use mqtt_sensor_exporter.Kube.{Database, Cluster}
use mqtt_sensor_exporter.Database.Driver.{Driver, TlsConfig}
use mqtt_sensor_exporter.Database.Manager.{Connection, State, connect, disconnect, key}
use mqtt_sensor_exporter.Database.Manager.Keys.{key_of_database}

module _ {W H : Type 0} (is_open : W → H → Bool) where
  -- No pool is closed.
  abbrev pub Keeps : W → W → Type 0
  Keeps before after = (j : H) → is_open before j ≡ true → is_open after j ≡ true

  abbrev pub KeepsAll : {A : Type 0} → Action W A → Type 0
  KeepsAll m = (w : W) → Keeps w (m w).0

  -- A success returns a handle on a new pool.
  abbrev pub Opens : W → W × Result H → Type 0
  Opens w (w', ok h) = (is_open w h ≡ false) × (is_open w' h ≡ true) × Keeps w w'
  Opens w (w', err e) = Keeps w w'

  -- What the calls of the driver do to the open pools, as `database/sql` documents it: opening makes
  -- a new one, `Close` closes the pool that it is called for, and nothing else closes any.
  pub record IsPooled {Pool Cert Config : Type 0} (driver : Driver W H Pool Cert Config)
      : Type 0 where
    pub opens_plain : (w : W) (dsn : String) → Opens w (driver.open_plain w dsn)
    pub opens_tls :
        (w : W) (config : Config) (tls : TlsConfig Pool Cert)
        → Opens w (driver.open_tls w config tls)
    pub closes_one :
        (w : W) (h j : H) → j ≢ h → is_open w j ≡ true → is_open (driver.close w h) j ≡ true
    pub limits_open : (w : W) (h : H) (n : ℤ) → Keeps w (driver.set_max_open_conns w h n)
    pub limits_idle : (w : W) (h : H) (n : ℤ) → Keeps w (driver.set_max_idle_conns w h n)
    pub migrates : (h : H) (types : List String) → KeepsAll (λ w. driver.run_migrations w h types)

  -- Every connection of the table has an open pool, and no two have the same.
  pub record IsLive (s : State W H) : Type 0 where
    pub opened :
        (k : String) (c : Connection H)
        → lookup k s.connections ≡ some c
        → is_open s.world c.db ≡ true
    pub apart :
        (j k : String) (c d : Connection H)
        → lookup j s.connections ≡ some c
        → lookup k s.connections ≡ some d
        → c.db ≡ d.db
        → j ≡ k

module _ {W H Pool Cert Config : Type 0} (is_open : W → H → Bool) (cluster : Cluster W)
    (driver : Driver W H Pool Cert Config) where
  -- A call, by the key whose connection it closes. Storing and querying close no pool.
  pub data Step : Option String → State W H → State W H → Type 0 where
    connect_database :
        (s : State W H) (database : Database)
        → Step (some (key_of_database database)) s (connect cluster driver database s).0
    disconnect_database :
        (s : State W H) (namespace name : String)
        → Step (some (key namespace name)) s (disconnect cluster driver namespace name s)
    use_pools :
        (s : State W H) (w : W) → Keeps is_open s.world w → Step none s (record s { world = w })

  -- The calls that `allowed` admits, one after another.
  pub data Runs (allowed : Option String → Bool) (s : State W H) : State W H → Type 0 where
    start : Runs allowed s s
    then_step :
        {o : Option String} {t u : State W H}
        → Runs allowed s t
        → allowed o ≡ true
        → Step o t u
        → Runs allowed s u

abbrev pub any_call : Option String → Bool
any_call o = true

-- The calls that leave a key alone.
abbrev pub spares : String → Option String → Bool
spares k none = true
spares k (some j) = not (j == k)
