-- ===== src/Database/Manager/Ready.antt =====
-- The handlers of every connection that the manager keeps.
use mqtt_sensor_exporter.Common.{
  ◌≡◌, String, none, some, List, [], ◌∷◌, ◌==◌, if◌then◌else◌, contains, arith,
}
use mqtt_sensor_exporter.Kube.{Database}
use mqtt_sensor_exporter.Database.Kind.{
  Kind, moisture, kind, is_moisture, is_water_level, is_valve, is_room, kind-moisture,
  kind-water_level, kind-valve, kind-room,
}
use mqtt_sensor_exporter.Database.Manager.{
  Connection, supports, init_handler, init_handlers, new_connection,
}

-- A handler is there, for the connection's own database, exactly when its type is supported.
pub record IsReady {H : Type 0} (conn : Connection H) : Type 0 where
  pub moisture_ready :
      conn.moisture_handler ≡ (if supports "moisture" conn then some conn.db else none)
  pub water_level_ready :
      conn.water_level_handler ≡ (if supports "water_level" conn then some conn.db else none)
  pub valve_ready : conn.valve_handler ≡ (if supports "valve" conn then some conn.db else none)
  pub room_ready : conn.room_handler ≡ (if supports "room" conn then some conn.db else none)

-- What the loop over the types leaves in each field.
record Inits {H : Type 0} (types : List String) (before after : Connection H) : Type 0 where
  same_database : after.database ≡ before.database
  same_db : after.db ≡ before.db
  moisture_set :
      after.moisture_handler
      ≡ (if contains types "moisture" then some before.db else before.moisture_handler)
  water_level_set :
      after.water_level_handler
      ≡ (if contains types "water_level" then some before.db else before.water_level_handler)
  valve_set :
      after.valve_handler
      ≡ (if contains types "valve" then some before.db else before.valve_handler)
  room_set :
      after.room_handler ≡ (if contains types "room" then some before.db else before.room_handler)

init_handler-Inits :
    {H : Type 0} (t : String) (c : Connection H) → Inits (t ∷ []) c (init_handler c (kind t))
init_handler-Inits {H} t c =
    go (kind t) (kind-moisture t) (kind-water_level t) (kind-valve t) (kind-room t)
  where
    go :
        (k : Kind)
        → (t == "moisture") ≡ is_moisture k
        → (t == "water_level") ≡ is_water_level k
        → (t == "valve") ≡ is_valve k
        → (t == "room") ≡ is_room k
        → Inits (t ∷ []) c (init_handler c k)
    go moisture m w v r = unfold init_handler in ground arith
    go _ m w v r = unfold init_handler in ground arith

init_handlers-Inits :
    {H : Type 0} (types : List String) (c : Connection H) → Inits types c (init_handlers c types)
unfolding init_handlers
init_handlers-Inits [] c = ground arith
init_handlers-Inits (t ∷ types) c =
    let step = init_handler-Inits t c in
    let rest = init_handlers-Inits types (init_handler c (kind t)) in ground arith

-- A new connection has, for each of the four types, a handler on its own database exactly when the
-- database supports that type.
pub new_connection-IsReady :
    {H : Type 0} (database : Database) (h : H) → IsReady (new_connection database h)
unfolding new_connection
new_connection-IsReady database h =
    let all = init_handlers-Inits database.supported_sensor_types (record {
      database = database;
      db = h;
      moisture_handler = none;
      water_level_handler = none;
      valve_handler = none;
      room_handler = none;
    }) in
    ground arith

pub new_connection-database :
    {H : Type 0} (database : Database) (h : H) → (new_connection database h).database ≡ database
unfolding new_connection
new_connection-database database h =
    (init_handlers-Inits database.supported_sensor_types _).same_database

pub new_connection-db :
    {H : Type 0} (database : Database) (h : H) → (new_connection database h).db ≡ h
unfolding new_connection
new_connection-db database h = (init_handlers-Inits database.supported_sensor_types _).same_db
