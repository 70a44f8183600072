-- ===== src/Database/Manager.antt =====
-- internal/database/manager.go: the manager's connections. The lock makes each method one step, so
-- a method is a function on the state. `range m.connections` visits the entries in an order that
-- the runtime chooses anew each time: it is the argument `visit` of the methods that iterate.
pub mod Ready
pub mod Keys
pub mod Kinds
pub mod Storing
use mqtt_sensor_exporter.Common.{
  String, ◌<>◌, Bool, Option, none, some, List, [], ◌∷◌, ◌==◌, if◌then◌else◌, contains, find,
  errorf, Result, ok, err, Action, ◌>>=◌, ◌>>◌, return, fail, with_context,
}
use mqtt_sensor_exporter.Common.Dict.{Dict, lookup, insert, erase}
use mqtt_sensor_exporter.Common.Int.{ℤ}
use mqtt_sensor_exporter.Float.{Float64}
use mqtt_sensor_exporter.Kube.{Database, Cluster}
use mqtt_sensor_exporter.Payload.{Payload}
use mqtt_sensor_exporter.Database.Gorm.{Gorm}
use mqtt_sensor_exporter.Database.Kind.{Kind, moisture, water_level, valve, room, other, kind}
use mqtt_sensor_exporter.Database.Driver.{Driver, TlsConfig}
use mqtt_sensor_exporter.Database.Dsn.{build_dsn}
use mqtt_sensor_exporter.Database.Store.Handlers.{
  store_moisture, store_water_level, store_valve, store_room,
}

-- A handler is the database handle that it was made for. `db` is never nil: a connection is kept
-- only after `gorm.Open` has succeeded.
pub record Connection (H : Type 0) : Type 0 where
  pub database : Database
  pub db : H
  pub moisture_handler : Option H
  pub water_level_handler : Option H
  pub valve_handler : Option H
  pub room_handler : Option H

abbrev pub Connections : Type 0 → Type 0
Connections H = Dict (Connection H)

-- The world outside, and the field `connections`.
pub record State (W H : Type 0) : Type 0 where
  pub world : W
  pub connections : Connections H

abbrev pub key : String → String → String
key namespace name = namespace <> "/" <> name

module _ {H : Type 0} where
  abbrev pub supports : String → Connection H → Bool
  supports sensor_type conn = contains conn.database.supported_sensor_types sensor_type

  -- One round of the loop over the supported types.
  unfoldable pub init_handler : Connection H → Kind → Connection H
  init_handler conn moisture = record conn { moisture_handler = some conn.db }
  init_handler conn water_level = record conn { water_level_handler = some conn.db }
  init_handler conn valve = record conn { valve_handler = some conn.db }
  init_handler conn room = record conn { room_handler = some conn.db }
  init_handler conn other = conn

  unfoldable pub init_handlers : Connection H → List String → Connection H
  init_handlers conn [] = conn
  init_handlers conn (t ∷ types) = init_handlers (init_handler conn (kind t)) types

  unfoldable pub new_connection : Database → H → Connection H
  new_connection database db =
      init_handlers
        (record {
          database = database;
          db = db;
          moisture_handler = none;
          water_level_handler = none;
          valve_handler = none;
          room_handler = none;
        })
        database.supported_sensor_types

module _ {W H : Type 0} where
  abbrev pub new_manager : W → State W H
  new_manager w = record { world = w; connections = [] }

  -- A step on the world alone.
  unfoldable pub outside : {A : Type 0} → Action W A → Action (State W H) A
  outside m s = (record s { world = (m s.world).0 }, (m s.world).1)

module _ {W H Pool Cert Config : Type 0} (cluster : Cluster W)
    (driver : Driver W H Pool Cert Config) where
  -- `sqlDB, _ := db.DB(); if sqlDB != nil { sqlDB.Close() }`
  abbrev pub closed : W → H → Result (Unit {0}) → W
  closed w h (ok _) = driver.close w h
  closed w h (err _) = w

  unfoldable pub drop_entry : String → Option (Connection H) → State W H → State W H
  drop_entry k none s = s
  drop_entry k (some conn) s = record s {
    world = closed s.world conn.db (driver.sql_db s.world conn.db);
    connections = erase k s.connections;
  }

  -- Close and forget the connection under a key, if there is one.
  unfoldable pub drop_connection : String → State W H → State W H
  drop_connection k s = drop_entry k (lookup k s.connections) s

  unfoldable pub drop_step : String → Action (State W H) (Unit {0})
  drop_step k s = (drop_connection k s, ok tt)

  unfoldable pub build_step : Database → Action W (String × Option (TlsConfig Pool Cert))
  build_step database w =
      with_context "failed to connect to database" (build_dsn cluster driver database w)

  unfoldable pub parse_step : String → Action W Config
  parse_step dsn w = with_context "failed to parse DSN" (w, driver.parse_config dsn)

  unfoldable pub open_tls_step : Config → TlsConfig Pool Cert → Action W H
  open_tls_step config tls w =
      with_context "failed to connect to database" (driver.open_tls w config tls)

  -- With a TLS configuration the text is parsed first.
  unfoldable pub open_db : String → Option (TlsConfig Pool Cert) → Action W H
  open_db dsn none w = with_context "failed to connect to database" (driver.open_plain w dsn)
  open_db dsn (some tls) w = (parse_step dsn >>= λ config. open_tls_step config tls) w

  abbrev pub limited : (W → H → ℤ → W) → Option ℤ → H → W → W
  limited set none h w = w
  limited set (some n) h w = set w h n

  unfoldable pub configure_pool : Database → H → Action W (Unit {0})
  configure_pool database h w = (
    limited driver.set_max_idle_conns database.min_connections h
        (limited driver.set_max_open_conns database.max_connections h w),
    ok tt,
  )

  unfoldable pub get_sql_db : H → Action W (Unit {0})
  get_sql_db h w = with_context "failed to get SQL DB" (w, driver.sql_db w h)

  unfoldable pub migrate : Database → H → Action W (Unit {0})
  migrate database h w =
      with_context "failed to run database migrations"
        (driver.run_migrations w h database.supported_sensor_types)

  -- Everything between the old connection's end and the new one's entry.
  unfoldable pub establish : Database → Action W H
  establish database = do
    built ← build_step database
    h ← open_db built.0 built.1
    get_sql_db h
    configure_pool database h
    migrate database h
    return h

  unfoldable pub register : Database → H → Action (State W H) (Unit {0})
  register database h s =
      let k = key database.namespace database.name in
      (record s { connections = insert k (new_connection database h) s.connections }, ok tt)

  unfoldable pub connect : Database → Action (State W H) (Unit {0})
  connect database = do
    drop_step (key database.namespace database.name)
    h ← outside (establish database)
    register database h

  unfoldable pub disconnect : String → String → State W H → State W H
  disconnect namespace name s = drop_connection (key namespace name) s

module _ {H : Type 0} (visit : Connections H → Connections H) where
  -- The loop that looks for a database, with its `break`.
  unfoldable pub find_connection : String → Connections H → Option (String × Connection H)
  find_connection sensor_type conns = find (λ e. supports sensor_type e.1) (visit conns)

  abbrev pub db_of : Option (String × Connection H) → Option H
  db_of none = none
  db_of (some (_, conn)) = some conn.db

  unfoldable pub get_db_for_sensor_type : String → Connections H → Option H
  get_db_for_sensor_type sensor_type conns = db_of (find_connection sensor_type conns)

module _ {W H F : Type 0} (fl : Float64 F) (g : Gorm W H F) (now : ℤ) where
  -- `if handler == nil { return error }; return handler.StoreMeasurement(...)`
  abbrev pub call_handler : Option H → String → (H → Action W (Unit {0})) → Action W (Unit {0})
  call_handler none text store = fail (errorf text)
  call_handler (some h) text store = store h

  -- The switch on the sensor type, whose text the last case reports.
  unfoldable pub route : Connection H → String → String → Payload F → Kind → Action W (Unit {0})
  route conn device_id sensor_type payload moisture =
      call_handler conn.moisture_handler "moisture handler not initialized"
        (store_moisture fl g now device_id payload)
  route conn device_id sensor_type payload water_level =
      call_handler conn.water_level_handler "water level handler not initialized"
        (store_water_level fl g now device_id payload)
  route conn device_id sensor_type payload valve =
      call_handler conn.valve_handler "valve handler not initialized"
        (store_valve fl g now device_id payload)
  route conn device_id sensor_type payload room =
      call_handler conn.room_handler "room handler not initialized"
        (store_room fl g now device_id payload)
  route conn device_id sensor_type payload other =
      fail (errorf ("unsupported sensor type: " <> sensor_type))

  unfoldable pub store_in :
      Option (String × Connection H) → String → String → Payload F → Action W (Unit {0})
  store_in none device_id sensor_type payload =
      fail (errorf ("no database found for sensor type: " <> sensor_type))
  store_in (some (_, conn)) device_id sensor_type payload =
      route conn device_id sensor_type payload (kind sensor_type)

  unfoldable pub store_measurement :
      (Connections H → Connections H)
      → Connections H
      → String
      → String
      → Payload F
      → Action W (Unit {0})
  store_measurement visit conns device_id sensor_type payload =
      store_in (find_connection visit sensor_type conns) device_id sensor_type payload
