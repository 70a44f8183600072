-- ===== src/Database/Handles/Opening.antt =====
-- What becomes of the pool that `Connect` opens.
use mqtt_sensor_exporter.Common.{
  ◌≡◌, refl, sym, String, Bool, true, false, Option, none, some, Result, ok, err, Action, ◌>>=◌,
  and_next, ◌>>◌, ok_inj, return,
}
use mqtt_sensor_exporter.Common.Int.{ℤ}
use mqtt_sensor_exporter.Kube.{Database, Cluster}
use mqtt_sensor_exporter.Database.Driver.{Driver, TlsConfig}
use mqtt_sensor_exporter.Database.Manager.{
  build_step, open_db, limited, configure_pool, get_sql_db, migrate, establish,
}
use mqtt_sensor_exporter.Database.Handles.{Keeps, KeepsAll, Opens, IsPooled}
use mqtt_sensor_exporter.Database.Handles.Building.{
  KeepsAll-bind, Opens-bind, build_step-KeepsAll, open_db-Opens,
}

module _ {W H : Type 0} (is_open : W → H → Bool) where
  -- A pool that has been opened is there at the end, whether or not the set-up succeeds.
  abbrev pub Established : W → W × Result H → W × Result H → Type 0
  Established w (w₁, ok h) (w', r) =
      (is_open w h ≡ false)
      × (is_open w' h ≡ true)
      × Keeps is_open w w'
      × ((x : H) → r ≡ ok x → x ≡ h)
  Established w (w₁, err e) (w', r) = Keeps is_open w w' × (r ≡ err e)

module _ {W H Pool Cert Config : Type 0} (cluster : Cluster W)
    (driver : Driver W H Pool Cert Config) where
  -- The opening itself, and what `Connect` then does with the handle.
  abbrev pub opening : Database → Action W H
  opening database =
      build_step cluster driver database >>= λ built. open_db cluster driver built.0 built.1

  abbrev set_up : Database → H → Action W H
  set_up database h =
      get_sql_db cluster driver h
      >> (configure_pool cluster driver database h
          >> (migrate cluster driver database h >> return h))

module _ {W H Pool Cert Config : Type 0} (is_open : W → H → Bool) (cluster : Cluster W)
    (driver : Driver W H Pool Cert Config) (pooled : IsPooled is_open driver) where
  pub opening-Opens :
      (database : Database) (w : W) → Opens is_open w (opening cluster driver database w)
  opening-Opens database =
      Opens-bind is_open (build_step cluster driver database) _
        (build_step-KeepsAll is_open cluster driver pooled database)
        (λ built. open_db-Opens is_open cluster driver pooled built.0 built.1)

  establish_lem :
      (database : Database) (w : W)
      → establish cluster driver database w
        ≡ and_next (opening cluster driver database w) (set_up cluster driver database)
  unfolding establish
  establish_lem database w = go (build_step cluster driver database w)
    where
      go :
          (step : W × Result (String × Option (TlsConfig Pool Cert)))
          → and_next step (λ built.
            open_db cluster driver built.0 built.1 >>= λ h. set_up cluster driver database h)
            ≡ and_next
                (and_next step (λ built. open_db cluster driver built.0 built.1))
                (set_up cluster driver database)
      go (w', ok built) = refl
      go (w', err e) = refl

  configure_pool-KeepsAll :
      (database : Database) (h : H) → KeepsAll is_open (configure_pool cluster driver database h)
  unfolding configure_pool
  configure_pool-KeepsAll database h w j o =
      idle database.min_connections
        (limited cluster driver driver.set_max_open_conns database.max_connections h w)
        (both database.max_connections)
    where
      both :
          (n : Option ℤ) → is_open (limited cluster driver driver.set_max_open_conns n h w) j ≡ true
      both none = o
      both (some n) = pooled.limits_open w h n j o

      idle :
          (n : Option ℤ) (v : W)
          → is_open v j ≡ true
          → is_open (limited cluster driver driver.set_max_idle_conns n h v) j ≡ true
      idle none v o' = o'
      idle (some n) v o' = pooled.limits_idle v h n j o'

  set_up-KeepsAll :
      (database : Database) (h : H) → KeepsAll is_open (set_up cluster driver database h)
  unfolding get_sql_db migrate
  set_up-KeepsAll database h =
      KeepsAll-bind is_open (get_sql_db cluster driver h) _ (λ w j o. o)
        (λ _.
          KeepsAll-bind is_open (configure_pool cluster driver database h) _
            (configure_pool-KeepsAll database h)
            (λ _.
              KeepsAll-bind is_open (migrate cluster driver database h) _
                (pooled.migrates h database.supported_sensor_types) (λ _ w j o. o)))

  -- It returns no other handle than the one it was given.
  set_up-eq-ok :
      (database : Database) (h x : H) (w : W)
      → (set_up cluster driver database h w).1 ≡ ok x
      → x ≡ h
  set_up-eq-ok database h x w =
      last (get_sql_db cluster driver h) _
        (last (configure_pool cluster driver database h) _
          (last (migrate cluster driver database h) (return h) (λ w' e. sym (ok_inj e))))
        w
    where
      last :
          (m : Action W (Unit {0})) (k : Action W H)
          → ((w : W) → (k w).1 ≡ ok x → x ≡ h)
          → (w : W) → ((m >> k) w).1 ≡ ok x
          → x ≡ h
      last m k later w = go (m w)
        where
          go : (step : W × Result (Unit {0})) → (and_next step (λ _. k)).1 ≡ ok x → x ≡ h
          go (w', ok a) e = later w' e
          go (w', err y) e = cc

  pub establish-Established :
      (database : Database) (w : W)
      → Established is_open w
          (opening cluster driver database w)
          (establish cluster driver database w)
  establish-Established database w =
      rw (establish_lem database w)
        (go (opening cluster driver database w) (opening-Opens database w))
    where
      go :
          (step : W × Result H)
          → Opens is_open w step
          → Established is_open w step (and_next step (set_up cluster driver database))
      go (w₁, ok h) (new, is_there, keeps) = (
        new,
        set_up-KeepsAll database h w₁ h is_there,
        λ j o. set_up-KeepsAll database h w₁ j (keeps j o),
        λ x e. set_up-eq-ok database h x w₁ e,
      )
      go (w₁, err e) keeps = (keeps, refl)
