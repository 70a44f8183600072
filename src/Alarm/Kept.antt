-- ===== src/Alarm/Kept.antt =====
-- A `StoreMeasurement` of the manager that succeeds, and the handle behind which it stores.
use mqtt_sensor_exporter.Common.{
  ◌≡◌, refl, ◌∙◌, ap, String, true, Option, none, some, List, All, any, find, ok,
}
use mqtt_sensor_exporter.Common.Int.{ℤ}
use mqtt_sensor_exporter.Common.Order.{
  IsOrder, any-Permᴰ, Memᴰ-Permᴰ, All-Memᴰ, find-eq-none, find-eq-some, any-Memᴰ,
}
use mqtt_sensor_exporter.Float.{Float64}
use mqtt_sensor_exporter.Payload.{Payload}
use mqtt_sensor_exporter.Database.Gorm.{DbDevice, Row, Gorm}
use mqtt_sensor_exporter.Database.Gorm as Rows
use mqtt_sensor_exporter.Database.Gorm.Laws.{IsLawful}
use mqtt_sensor_exporter.Database.Kind.{
  Kind, moisture, water_level, valve, room, other, kind, is_moisture, is_water_level, is_valve,
  is_room, kind-moisture, kind-water_level, kind-valve, kind-room,
}
use mqtt_sensor_exporter.Database.Store.Rows.{
  moisture_row, water_level_row, valve_row, room_row, link_quality_rows,
}
use mqtt_sensor_exporter.Database.Store.Chain.{store_chain}
use mqtt_sensor_exporter.Database.Store.Handlers.{
  battery_and_link, store_moisture, store_water_level, store_valve, store_room,
}
use mqtt_sensor_exporter.Database.Queries.Latest.{IsStored, store_chain-IsStored}
use mqtt_sensor_exporter.Database.Manager.{
  Connection, Connections, supports, find_connection, call_handler, route, store_in,
  store_measurement, db_of, get_db_for_sensor_type,
}
use mqtt_sensor_exporter.Database.Manager.Ready.{IsReady}
use mqtt_sensor_exporter.Database.Manager.Storing.{handler_there}

-- Every connection that supports the type is one to the same database.
abbrev pub IsShared : {H : Type 0} → String → H → Connections H → Type 0
IsShared sensor_type h conns = All (λ e. supports sensor_type e.1 ≡ true → e.1.db ≡ h) conns

module _ {W H F : Type 0} (fl : Float64 F) (g : Gorm W H F) (rows : W → H → List (Row F))
    (lawful : IsLawful g rows)
    (saves : (w : W) (h : H) (d : DbDevice) → (g.save_device w h d).1 ≡ ok tt) (now : ℤ)
    (device_id sensor_type : String) (payload : Payload F) (h : H) where
  -- What a success has stored, by the kind of the sensor type.
  abbrev pub KindStored : Kind → List (Row F) → W → Type 0
  KindStored moisture before w =
      IsStored g rows lawful device_id (λ d. Rows.moisture (moisture_row fl now d payload))
        (battery_and_link fl g now payload) h before w
  KindStored water_level before w =
      IsStored g rows lawful device_id (λ d. Rows.water_level (water_level_row fl now d payload))
        (battery_and_link fl g now payload) h before w
  KindStored valve before w =
      IsStored g rows lawful device_id (λ d. Rows.valve (valve_row fl now d payload))
        (battery_and_link fl g now payload) h before w
  KindStored room before w =
      IsStored g rows lawful device_id (λ d. Rows.room (room_row fl now d payload))
        (λ d. link_quality_rows fl now d payload) h before w
  KindStored other before w = ⊥

  called :
      (o : Option H)
      → o ≡ some h
      → (text st note : String) (row : DbDevice → Row F) (extras : DbDevice → List (Row F)) (w : W)
      → (call_handler fl g now o text (store_chain g st note row extras device_id payload) w).1
        ≡ ok tt
      → IsStored g rows lawful device_id row extras h
          (rows w h)
          (call_handler fl g now o text (store_chain g st note row extras device_id payload) w).0
  called o there text st note row extras w r = rw there (
      store_chain-IsStored g rows lawful saves st note row extras device_id payload h w
        (rw there at r))

  route-KindStored :
      (conn : Connection H) (w : W) (k : Kind)
      → kind sensor_type ≡ k
      → IsReady conn
      → supports sensor_type conn ≡ true
      → conn.db ≡ h
      → (route fl g now conn device_id sensor_type payload k w).1 ≡ ok tt
      → KindStored k (rows w h) (route fl g now conn device_id sensor_type payload k w).0
  unfolding route store_moisture store_water_level store_valve store_room
  route-KindStored conn w moisture e ready s same r =
      called conn.moisture_handler
        (handler_there sensor_type "moisture" conn (kind-moisture sensor_type ∙ ap is_moisture e) s
            ready.moisture_ready
          ∙ ap some same)
        _ _ _ _ _ w r
  route-KindStored conn w water_level e ready s same r =
      called conn.water_level_handler
        (handler_there sensor_type "water_level" conn
            (kind-water_level sensor_type ∙ ap is_water_level e) s ready.water_level_ready
          ∙ ap some same)
        _ _ _ _ _ w r
  route-KindStored conn w valve e ready s same r =
      called conn.valve_handler
        (handler_there sensor_type "valve" conn (kind-valve sensor_type ∙ ap is_valve e) s
            ready.valve_ready
          ∙ ap some same)
        _ _ _ _ _ w r
  route-KindStored conn w room e ready s same r =
      called conn.room_handler
        (handler_there sensor_type "room" conn (kind-room sensor_type ∙ ap is_room e) s
            ready.room_ready
          ∙ ap some same)
        _ _ _ _ _ w r
  route-KindStored conn w other e ready s same r = cc

  -- On a lawful database, where no `Save` fails, every connection has its handlers and those that
  -- support the type share a database: a `StoreMeasurement` of the manager that succeeds has stored
  -- the measurement there.
  pub store_measurement-KindStored :
      (visit : Connections H → Connections H)
      → IsOrder visit
      → (conns : Connections H) → All (λ e. IsReady e.1) conns
      → IsShared sensor_type h conns
      → (w : W) → (store_measurement fl g now visit conns device_id sensor_type payload w).1 ≡ ok tt
      → (any (λ e. supports sensor_type e.1) conns ≡ true)
        × KindStored
            (kind sensor_type)
            (rows w h)
            (store_measurement fl g now visit conns device_id sensor_type payload w).0
  unfolding store_measurement store_in find_connection
  store_measurement-KindStored visit order conns ready shared w =
      go (find (λ e. supports sensor_type e.1) (visit conns)) refl
    where
      go :
          (found : Option (String × Connection H))
          → find (λ e. supports sensor_type e.1) (visit conns) ≡ found
          → (store_in fl g now found device_id sensor_type payload w).1 ≡ ok tt
          → (any (λ e. supports sensor_type e.1) conns ≡ true)
            × KindStored
                (kind sensor_type)
                (rows w h)
                (store_in fl g now found device_id sensor_type payload w).0
      go none e r = cc
      go (some (k, conn)) e r =
          let (m, s) = find-eq-some (λ x. supports sensor_type x.1) (visit conns) (k, conn) e in
          let here = Memᴰ-Permᴰ (order conns) m in
          (
            any-Memᴰ (λ x. supports sensor_type x.1) here s,
            route-KindStored conn w (kind sensor_type) refl
                (All-Memᴰ (λ x. IsReady x.1) conns ready here) s
                (All-Memᴰ (λ x. supports sensor_type x.1 ≡ true → x.1.db ≡ h) conns shared here s)
                r,
          )

-- In whatever order the connections are visited, a supported type is read from the shared database.
pub get_db_for_sensor_type-IsShared :
    {H : Type 0} (visit : Connections H → Connections H)
    → IsOrder visit
    → (sensor_type : String) (h : H) (conns : Connections H) → IsShared sensor_type h conns
    → any (λ e. supports sensor_type e.1) conns ≡ true
    → get_db_for_sensor_type visit sensor_type conns ≡ some h
unfolding get_db_for_sensor_type find_connection
get_db_for_sensor_type-IsShared {H} visit order sensor_type h conns shared some_there =
    go (find (λ e. supports sensor_type e.1) (visit conns)) refl
  where
    go :
        (found : Option (String × Connection H))
        → find (λ e. supports sensor_type e.1) (visit conns) ≡ found
        → db_of visit found ≡ some h
    go none e =
        let nowhere = find-eq-none (λ x. supports sensor_type x.1) (visit conns) e in
        cc (nowhere, any-Permᴰ (λ x. supports sensor_type x.1) (order conns), some_there)
    go (some (k, conn)) e =
        let (m, s) = find-eq-some (λ x. supports sensor_type x.1) (visit conns) (k, conn) e in
        ap some (
          All-Memᴰ (λ x. supports sensor_type x.1 ≡ true → x.1.db ≡ h) conns shared
            (Memᴰ-Permᴰ (order conns) m) s)
