-- ===== src/Database/Queries/Stored.antt =====
-- `StoreMeasurement` and then `GetLatestMeasurement`, of the moisture and the room handler.
use mqtt_sensor_exporter.Common.{
  ℕ, ◌≡◌, ◌≢◌, refl, String, none, some, List, Error, ok, Option-cases, inl, inr, All, All-append,
}
use mqtt_sensor_exporter.Common.Int.{ℤ, ◌<ℤ◌}
use mqtt_sensor_exporter.Float.{Float64}
use mqtt_sensor_exporter.Payload.{Payload, float_at}
use mqtt_sensor_exporter.Database.Gorm.{
  DbDevice, Battery, battery, LinkQuality, link_quality, MoistureMeasurement, RoomMeasurement, Row,
  failed, Gorm,
}
use mqtt_sensor_exporter.Database.Gorm.Laws.{IsLawful}
use mqtt_sensor_exporter.Database.Store.Rows.{
  moisture_row, room_row, battery_rows, link_quality_rows,
}
use mqtt_sensor_exporter.Database.Store.Handlers.{store_moisture, store_room}
use mqtt_sensor_exporter.Database.Queries.{Table, latest_moisture, latest_room}
use mqtt_sensor_exporter.Database.Queries.Tables.{
  View, moisture_view, room_view, entries, IsQueryable,
}
use mqtt_sensor_exporter.Database.Queries.Latest.{latest-store_chain}

-- The rows for the battery and the link quality are in tables of their own.
module _ {F M : Type 0} (v : View F M) (fl : Float64 F) (now : ℤ) (payload : Payload F)
    (d : DbDevice) where
  pub link_quality_of_others :
      ((x : LinkQuality) → v.pick (link_quality x) ≡ none)
      → All (λ r. v.pick r ≡ none) (link_quality_rows fl now d payload)
  unfolding link_quality_rows
  link_quality_of_others other = elim (Option-cases (float_at "LinkQuality" payload)) [
    | inl e ↦ rw (e, All) tt
    | inr (x, e) ↦ rw (e, All) (other _, tt)
  ]

  pub battery_of_others :
      ((x : Battery) → v.pick (battery x) ≡ none)
      → All (λ r. v.pick r ≡ none) (battery_rows fl now d payload)
  unfolding battery_rows
  battery_of_others other = elim (Option-cases (float_at "BatteryPercentage" payload)) [
    | inl e ↦ rw (e, All) tt
    | inr (x, e) ↦ rw (e, All) (other _, tt)
  ]

module _ {W H F : Type 0} (fl : Float64 F) (g : Gorm W H F) (rows : W → H → List (Row F))
    (lawful : IsLawful g rows)
    (saves : (w : W) (h : H) (d : DbDevice) → (g.save_device w h d).1 ≡ ok tt) where
  -- On a lawful database with a queryable moisture table, where no `Save` fails and the query for
  -- the newest row does not fail: when `StoreMeasurement` of the moisture handler has succeeded at a
  -- time that is later than every moisture row that was there, `GetLatestMeasurement` returns the
  -- row made of that payload, with its device, which bears the name that was asked for.
  pub get_latest-store_moisture :
      (table : Table W H (MoistureMeasurement F))
      → IsQueryable g table moisture_view rows
      → (now : ℤ) (id : String) (payload : Payload F) (h : H) (w : W)
      → All (λ n. View.time moisture_view n <ℤ now) (entries moisture_view (rows w h))
      → ((w₁ : W) (i : ℕ) (e : Error) → table.last_of w₁ h i ≢ failed e)
      → (store_moisture fl g now id payload h w).1 ≡ ok tt
      → (d : DbDevice) × (d.device_id ≡ id)
        × (latest_moisture g table id h (store_moisture fl g now id payload h w).0
            ≡ ok (some (record { measurement = moisture_row fl now d payload; device = d })))
  unfolding store_moisture latest_moisture moisture_row
  get_latest-store_moisture table sound now id payload h w older reads r =
      latest-store_chain g rows lawful table moisture_view sound saves "moisture" _ _ _
        (λ d. moisture_row fl now d payload) (λ d. refl) (λ d. refl)
        (λ d.
          All-append _ (battery_rows fl now d payload) _
            (battery_of_others moisture_view fl now payload d (λ x. refl))
            (link_quality_of_others moisture_view fl now payload d (λ x. refl)))
        id payload h w (λ d. older) reads r

  -- The same of the room handler and its table.
  pub get_latest-store_room :
      (table : Table W H (RoomMeasurement F))
      → IsQueryable g table room_view rows
      → (now : ℤ) (id : String) (payload : Payload F) (h : H) (w : W)
      → All (λ n. View.time room_view n <ℤ now) (entries room_view (rows w h))
      → ((w₁ : W) (i : ℕ) (e : Error) → table.last_of w₁ h i ≢ failed e)
      → (store_room fl g now id payload h w).1 ≡ ok tt
      → (d : DbDevice) × (d.device_id ≡ id)
        × (latest_room g table id h (store_room fl g now id payload h w).0
            ≡ ok (some (record { measurement = room_row fl now d payload; device = d })))
  unfolding store_room latest_room room_row
  get_latest-store_room table sound now id payload h w older reads r =
      latest-store_chain g rows lawful table room_view sound saves "room" _ _ _
        (λ d. room_row fl now d payload) (λ d. refl) (λ d. refl)
        (λ d. link_quality_of_others room_view fl now payload d (λ x. refl)) id payload h w
        (λ d. older) reads r
