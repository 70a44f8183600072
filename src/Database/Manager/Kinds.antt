-- ===== src/Database/Manager/Kinds.antt =====
-- What `StoreMeasurement` is to do to the tables behind a handle, by the kind of the sensor type.
use mqtt_sensor_exporter.Common.{
  ℕ, none, [], ◌∷◌, ◌++◌, map, ◌≡◌, refl, String, ◌<>◌, Option, some, List, errorf, Result, err,
}
use mqtt_sensor_exporter.Common.Int.{ℤ}
use mqtt_sensor_exporter.Float.{Float64}
use mqtt_sensor_exporter.Payload.{Payload, float_at}
use mqtt_sensor_exporter.Database.Gorm.{DbDevice, Row, Gorm}
use mqtt_sensor_exporter.Database.Gorm as Rows
use mqtt_sensor_exporter.Database.Kind.{Kind, moisture, water_level, valve, room, other}
use mqtt_sensor_exporter.Database.Store.Chain.Laws.{StoreOutcome}
use mqtt_sensor_exporter.Database.Store.Rows.{
  moisture_row, water_level_row, valve_row, room_row, battery_rows, link_quality_rows,
}
use mqtt_sensor_exporter.Database.Store.Handlers.{battery_and_link}

-- The device and the time of a row.
abbrev pub owner_of : {F : Type 0} → Row F → ℕ
owner_of (Rows.moisture m) = m.device_id
owner_of (Rows.water_level m) = m.device_id
owner_of (Rows.valve m) = m.device_id
owner_of (Rows.room m) = m.device_id
owner_of (Rows.battery m) = m.device_id
owner_of (Rows.link_quality m) = m.device_id

abbrev pub time_of : {F : Type 0} → Row F → ℤ
time_of (Rows.moisture m) = m.timestamp
time_of (Rows.water_level m) = m.timestamp
time_of (Rows.valve m) = m.timestamp
time_of (Rows.room m) = m.timestamp
time_of (Rows.battery m) = m.timestamp
time_of (Rows.link_quality m) = m.timestamp

module _ {F : Type 0} (fl : Float64 F) (now : ℤ) (payload : Payload F) where
  -- The whole number that the payload has under a key, if it has a number there.
  abbrev pub numbers : Option F → List ℤ
  numbers none = []
  numbers (some x) = fl.to_int x ∷ []

  abbrev pub whole : String → List ℤ
  whole name = numbers (float_at name payload)

  abbrev pub link_of : DbDevice → List (Row F)
  link_of d =
      map (λ n. Rows.link_quality (record { timestamp = now; device_id = d.id; link_quality = n }))
        (whole "LinkQuality")

  abbrev pub battery_of : DbDevice → List (Row F)
  battery_of d =
      map (λ n. Rows.battery (record { timestamp = now; device_id = d.id; battery_percentage = n }))
        (whole "BatteryPercentage")

  -- The row is for the device, at the time of the call, and the extra rows are those described.
  abbrev pub Described :
      (DbDevice → Row F) → (DbDevice → List (Row F)) → (DbDevice → List (Row F)) → Type 0
  Described row extras described =
      (d : DbDevice)
      → (owner_of (row d) ≡ d.id) × (time_of (row d) ≡ now) × (extras d ≡ described d)

  pub elim-numbers :
      (f : ℤ → Row F) (o : Option F)
      → elim o [ none ↦ [] | some x ↦ f (fl.to_int x) ∷ [] ] ≡ map f (numbers o)
  elim-numbers f none = refl
  elim-numbers f (some x) = refl

  pub link_quality_rows-link_of : (d : DbDevice) → link_quality_rows fl now d payload ≡ link_of d
  unfolding link_quality_rows
  link_quality_rows-link_of d = elim-numbers _ (float_at "LinkQuality" payload)

  pub battery_rows-battery_of : (d : DbDevice) → battery_rows fl now d payload ≡ battery_of d
  unfolding battery_rows
  battery_rows-battery_of d = elim-numbers _ (float_at "BatteryPercentage" payload)

module _ {W H F : Type 0} (fl : Float64 F) (g : Gorm W H F) (rows : W → H → List (Row F)) (now : ℤ)
    (device_id sensor_type : String) (payload : Payload F) where
  abbrev pub battery_and_link_of : DbDevice → List (Row F)
  battery_and_link_of d = battery_of fl now payload d ++ link_of fl now payload d

  -- What a message does to the tables behind a handle, by the kind of its sensor type: a row of the
  -- kind's own table, and then the battery (not for rooms) and the link quality, or nothing.
  abbrev pub KindOutcome : Kind → H → W → W × Result (Unit {0}) → Type 0
  KindOutcome moisture h w step =
      StoreOutcome g h "moisture" device_id payload rows "failed to store moisture measurement"
        (λ d. Rows.moisture (moisture_row fl now d payload)) (battery_and_link fl g now payload) w
        step
      × Described fl now payload (λ d. Rows.moisture (moisture_row fl now d payload))
          (battery_and_link fl g now payload) battery_and_link_of
  KindOutcome water_level h w step =
      StoreOutcome g h "water_level" device_id payload rows
        "failed to store water level measurement"
        (λ d. Rows.water_level (water_level_row fl now d payload))
        (battery_and_link fl g now payload) w step
      × Described fl now payload (λ d. Rows.water_level (water_level_row fl now d payload))
          (battery_and_link fl g now payload) battery_and_link_of
  KindOutcome valve h w step =
      StoreOutcome g h "valve" device_id payload rows "failed to store valve measurement"
        (λ d. Rows.valve (valve_row fl now d payload)) (battery_and_link fl g now payload) w step
      × Described fl now payload (λ d. Rows.valve (valve_row fl now d payload))
          (battery_and_link fl g now payload) battery_and_link_of
  KindOutcome room h w step =
      StoreOutcome g h "room" device_id payload rows "failed to store room measurement"
        (λ d. Rows.room (room_row fl now d payload)) (λ d. link_quality_rows fl now d payload) w
        step
      × Described fl now payload (λ d. Rows.room (room_row fl now d payload))
          (λ d. link_quality_rows fl now d payload) (link_of fl now payload)
  KindOutcome other h w step = step ≡ (w, err (errorf ("unsupported sensor type: " <> sensor_type)))
