-- ===== src/Database/Manager/Storing.antt =====
-- What `StoreMeasurement` of the manager does, for every order in which its connections are
-- visited.
use mathlib.Core.List.{Memᴰ}
use mqtt_sensor_exporter.Common.{
  none, ◌≡◌, refl, sym, ◌∙◌, ap, ◌⊎◌, inl, inr, String, ◌<>◌, eq_iff, true, false, Option, some,
  List, ◌==◌, if◌then◌else◌, All, any, find, errorf, Result, err,
}
use mqtt_sensor_exporter.Common.Int.{ℤ}
use mqtt_sensor_exporter.Common.Order.{
  IsOrder, any-Permᴰ, Memᴰ-Permᴰ, All-Memᴰ, find-eq-none, find-eq-some,
}
use mqtt_sensor_exporter.Float.{Float64}
use mqtt_sensor_exporter.Payload.{Payload}
use mqtt_sensor_exporter.Database.Gorm.{DbDevice, Row, Gorm}
use mqtt_sensor_exporter.Database.Gorm.Laws.{IsLawful}
use mqtt_sensor_exporter.Database.Kind.{
  Kind, moisture, water_level, valve, room, other, kind, is_moisture, is_water_level, is_valve,
  is_room, kind-moisture, kind-water_level, kind-valve, kind-room,
}
use mqtt_sensor_exporter.Database.Store.Chain.Laws.{store_chain_outcome}
use mqtt_sensor_exporter.Database.Store.Rows.{moisture_row, water_level_row, valve_row, room_row}
use mqtt_sensor_exporter.Database.Store.Handlers.{
  battery_and_link, store_moisture, store_water_level, store_valve, store_room,
}
use mqtt_sensor_exporter.Database.Manager.{
  Connection, Connections, supports, find_connection, route, store_in, store_measurement,
}
use mqtt_sensor_exporter.Database.Manager.Ready.{IsReady}
use mqtt_sensor_exporter.Database.Manager.Kinds.{
  link_quality_rows-link_of, battery_rows-battery_of, battery_and_link_of, KindOutcome,
}

pub handler_there :
    {H : Type 0} (sensor_type name : String) (conn : Connection H) {handler : Option H}
    → (sensor_type == name) ≡ true
    → supports sensor_type conn ≡ true
    → handler ≡ (if supports name conn then some conn.db else none)
    → handler ≡ some conn.db
handler_there sensor_type name conn e s ready =
    ready
    ∙ (let here : supports name conn ≡ true = rw ((eq_iff sensor_type name).0 e) at s in rw here)

module _ {W H F : Type 0} (fl : Float64 F) (g : Gorm W H F) (rows : W → H → List (Row F))
    (lawful : IsLawful g rows) (now : ℤ) (device_id sensor_type : String)
    (payload : Payload F) where
  battery_and_link-battery_and_link_of :
      (d : DbDevice)
      → battery_and_link fl g now payload d
        ≡ battery_and_link_of fl g rows now device_id sensor_type payload d
  battery_and_link-battery_and_link_of d =
      rw (battery_rows-battery_of fl now payload d, link_quality_rows-link_of fl now payload d) refl

  -- With its handler there, a type's case of the switch is a call of that handler.
  route_outcome :
      (conn : Connection H) (w : W) (k : Kind)
      → kind sensor_type ≡ k
      → IsReady conn
      → supports sensor_type conn ≡ true
      → KindOutcome fl g rows now device_id sensor_type payload k conn.db w
          (route fl g now conn device_id sensor_type payload k w)
  unfolding route store_moisture store_water_level store_valve store_room moisture_row
      water_level_row valve_row room_row
  route_outcome conn w moisture e ready s =
      rw
        (handler_there sensor_type "moisture" conn (kind-moisture sensor_type ∙ ap is_moisture e) s
          ready.moisture_ready)
        (
          store_chain_outcome g rows lawful conn.db _ _ _ _ device_id payload w,
          λ d. (refl, refl, battery_and_link-battery_and_link_of d),
        )
  route_outcome conn w water_level e ready s =
      rw
        (handler_there sensor_type "water_level" conn
          (kind-water_level sensor_type ∙ ap is_water_level e) s ready.water_level_ready)
        (
          store_chain_outcome g rows lawful conn.db _ _ _ _ device_id payload w,
          λ d. (refl, refl, battery_and_link-battery_and_link_of d),
        )
  route_outcome conn w valve e ready s =
      rw
        (handler_there sensor_type "valve" conn (kind-valve sensor_type ∙ ap is_valve e) s
          ready.valve_ready)
        (
          store_chain_outcome g rows lawful conn.db _ _ _ _ device_id payload w,
          λ d. (refl, refl, battery_and_link-battery_and_link_of d),
        )
  route_outcome conn w room e ready s =
      rw
        (handler_there sensor_type "room" conn (kind-room sensor_type ∙ ap is_room e) s
          ready.room_ready)
        (
          store_chain_outcome g rows lawful conn.db _ _ _ _ device_id payload w,
          λ d. (refl, refl, link_quality_rows-link_of fl now payload d),
        )
  route_outcome conn w other e ready s = refl

  -- What a call of the manager's `StoreMeasurement` comes to.
  abbrev pub ManagerOutcome : Connections H → W → W × Result (Unit {0}) → Type 0
  ManagerOutcome conns w step =
      ((any (λ e. supports sensor_type e.1) conns ≡ false)
        × (step ≡ (w, err (errorf ("no database found for sensor type: " <> sensor_type)))))
      ⊎ ((entry : String × Connection H) × Memᴰ entry conns
          × (supports sensor_type entry.1 ≡ true)
          × KindOutcome fl g rows now device_id sensor_type payload (kind sensor_type) entry.1.db w
              step)

  -- On a lawful database, when every connection has its handlers, then in whatever order the
  -- connections are visited: if none supports the sensor type, nothing changes and that is the
  -- error. Otherwise one of those that support it takes the message, and never for want of a
  -- handler. For a type of the four a success has found or created the device of the name there, has
  -- added the row of the kind for it, and has called `Create` for each extra row, of which only those
  -- are missing that `Create` has failed for; an error is one of the database's and no row is
  -- written. Any other type is refused with nothing changed.
  pub store_measurement_outcome :
      (visit : Connections H → Connections H)
      → IsOrder visit
      → (conns : Connections H) → All (λ e. IsReady e.1) conns
      → (w : W)
      → ManagerOutcome conns w
          (store_measurement fl g now visit conns device_id sensor_type payload w)
  unfolding store_measurement store_in find_connection
  store_measurement_outcome visit order conns ready w =
      go (find (λ e. supports sensor_type e.1) (visit conns)) refl
    where
      go :
          (found : Option (String × Connection H))
          → find (λ e. supports sensor_type e.1) (visit conns) ≡ found
          → ManagerOutcome conns w (store_in fl g now found device_id sensor_type payload w)
      go none e = inl (
        sym (any-Permᴰ (λ x. supports sensor_type x.1) (order conns))
            ∙ find-eq-none (λ x. supports sensor_type x.1) (visit conns) e,
        refl,
      )
      go (some (k, conn)) e =
          let (m, s) = find-eq-some (λ x. supports sensor_type x.1) (visit conns) (k, conn) e in
          let here = Memᴰ-Permᴰ (order conns) m in
          inr (
            (k, conn),
            here,
            s,
            route_outcome conn w (kind sensor_type) refl
                (All-Memᴰ (λ x. IsReady x.1) conns ready here) s,
          )
