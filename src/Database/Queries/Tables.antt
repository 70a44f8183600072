-- ===== src/Database/Queries/Tables.antt =====
-- What the queries rely on of a table: it is the rows of one kind, in the order of their creation,
-- a query answers by the rows that are there, and a deletion removes exactly the older ones.
use mathlib.Core.List.{Memᴰ, Permᴰ}
use mqtt_sensor_exporter.Common.{
  ℕ, ◌≡◌, ◌≢◌, String, Bool, false, not, ◌&&◌, Option, none, some, List, [], ◌∷◌, Error, ok, err,
  length, select, eqb,
}
use mqtt_sensor_exporter.Common.Int.{ℤ, pos, ltb_ℤ, ◌≤ℤ◌}
use mqtt_sensor_exporter.Database.Gorm.{
  MoistureMeasurement, RoomMeasurement, Row, moisture, room, found, not_found, Gorm,
}
use mqtt_sensor_exporter.Database.Queries.{Table}

-- The measurements of one table among the rows.
pub record View (F M : Type 0) : Type 0 where
  pub pick : Row F → Option M
  pub time : M → ℤ
  pub owner : M → ℕ

abbrev pub pick_moisture : {F : Type 0} → Row F → Option (MoistureMeasurement F)
pick_moisture (moisture m) = some m
pick_moisture _ = none

abbrev pub pick_room : {F : Type 0} → Row F → Option (RoomMeasurement F)
pick_room (room m) = some m
pick_room _ = none

abbrev pub moisture_view : {F : Type 0} → View F (MoistureMeasurement F)
moisture_view = record { pick = pick_moisture; time = λ m. m.timestamp; owner = λ m. m.device_id }

abbrev pub room_view : {F : Type 0} → View F (RoomMeasurement F)
room_view = record { pick = pick_room; time = λ m. m.timestamp; owner = λ m. m.device_id }

abbrev pub cons_some : {A : Type 0} → Option A → List A → List A
cons_some none xs = xs
cons_some (some x) xs = x ∷ xs

module _ {F M : Type 0} (v : View F M) where
  abbrev pub entries : List (Row F) → List M
  entries [] = []
  entries (r ∷ rs) = cons_some (v.pick r) (entries rs)

  -- `device_id = owner AND timestamp BETWEEN start AND end`
  abbrev pub in_range : ℕ → ℤ → ℤ → M → Bool
  in_range i start end m =
      eqb (v.owner m) i && not (ltb_ℤ (v.time m) start) && not (ltb_ℤ end (v.time m))

  abbrev pub is_older : ℤ → Option M → Bool
  is_older cutoff none = false
  is_older cutoff (some m) = ltb_ℤ (v.time m) cutoff

  abbrev pub is_expired : ℤ → Row F → Bool
  is_expired cutoff r = is_older cutoff (v.pick r)

pub record IsQueryable {W H F M : Type 0} (g : Gorm W H F) (table : Table W H M) (v : View F M)
    (rows : W → H → List (Row F)) : Type 0 where
  pub last_of-found :
      (w : W) (h : H) (i : ℕ) (m : M)
      → table.last_of w h i ≡ found m
      → Memᴰ m (entries v (rows w h))
        × (v.owner m ≡ i)
        × ((n : M) → Memᴰ n (entries v (rows w h)) → v.owner n ≡ i → v.time n ≤ℤ v.time m)
  pub last_of-not_found :
      (w : W) (h : H) (i : ℕ)
      → table.last_of w h i ≡ not_found
      → (m : M) → Memᴰ m (entries v (rows w h))
      → v.owner m ≢ i
  pub between-ok :
      (w : W) (h : H) (i : ℕ) (start end : ℤ) (ms : List M)
      → table.between w h i start end ≡ ok ms
      → Permᴰ ms (select (in_range v i start end) (entries v (rows w h)))
  pub rows-delete_before :
      (w : W) (h : H) (cutoff count : ℤ)
      → (table.delete_before w h cutoff).1 ≡ ok count
      → (rows (table.delete_before w h cutoff).0 h
          ≡ select (λ r. not (is_expired v cutoff r)) (rows w h))
        × (count ≡ pos (length (select (is_expired v cutoff) (rows w h))))
  pub rows-delete_before_err :
      (w : W) (h : H) (cutoff : ℤ) (e : Error)
      → (table.delete_before w h cutoff).1 ≡ err e
      → rows (table.delete_before w h cutoff).0 h ≡ rows w h
  pub first_device-delete_before :
      (w : W) (h : H) (cutoff : ℤ) (id : String)
      → g.first_device (table.delete_before w h cutoff).0 h id ≡ g.first_device w h id
