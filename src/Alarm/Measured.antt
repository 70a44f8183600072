-- ===== src/Alarm/Measured.antt =====
-- The value that the alerts service measures after a `StoreMeasurement` that has succeeded.
use mqtt_sensor_exporter.Common.{
  ℕ, ◌≡◌, ◌≢◌, refl, sym, ◌∙◌, ap, String, Option, none, some, some_inj, List, [], ◌∷◌, ◌++◌, All,
  All-append, ok, eqb_iff, select, arith,
}
use mqtt_sensor_exporter.Common.Int.{ℤ, pos, ◌≤ℤ◌, ◌<ℤ◌}
use mqtt_sensor_exporter.Float.{Float64}
use mqtt_sensor_exporter.Payload.{Payload, float_at}
use mqtt_sensor_exporter.Database.Gorm.{DbDevice, Row, found}
use mqtt_sensor_exporter.Database.Gorm.Laws.{IsLawful}
use mqtt_sensor_exporter.Database.Kind.{Kind, moisture, water_level, valve, room, other, kind}
use mqtt_sensor_exporter.Database.Store.Rows.{
  int_of, moisture_row, water_level_row, valve_row, room_row, battery_rows, link_quality_rows,
}
use mqtt_sensor_exporter.Database.Queries.Tables.{entries}
use mqtt_sensor_exporter.Database.Queries.Latest.{IsStored, entries-IsStored}
use mqtt_sensor_exporter.Database.Queries.Stored.{link_quality_of_others, battery_of_others}
use mqtt_sensor_exporter.Api.Measure.{
  Averages, table_of, window_start, window, get_measurement_column,
}
use mqtt_sensor_exporter.Alarm.Readings.{
  Reading, climate_cell, named_cell, as_number, column_view, is_matched, ReadsRows,
}
use mqtt_sensor_exporter.Alarm.Kept.{KindStored}

-- What a payload holds for a column of the table of a kind.
abbrev pub value_of : {F : Type 0} → Float64 F → Kind → String → Payload F → Option F
value_of fl moisture column p =
    climate_cell column (float_at "Temperature" p) (float_at "Humidity" p)
value_of fl room column p = climate_cell column (float_at "Temperature" p) (float_at "Humidity" p)
value_of fl water_level column p =
    named_cell "level" column (as_number fl (int_of fl (float_at "WaterLevel" p)))
value_of fl valve column p =
    named_cell "power" column (as_number fl (int_of fl (float_at "Power" p)))
value_of fl other column p = none

module _ {W H F : Type 0} (fl : Float64 F) (db : Averages W H F) (rows : W → H → List (Row F))
    (lawful : IsLawful db.gorm rows)
    (saves : (w : W) (h : H) (d : DbDevice) → (db.gorm.save_device w h d).1 ≡ ok tt) (now : ℤ)
    (device_id sensor_type : String) (payload : Payload F) (h : H) (column : String) where
  -- The device that a success was stored for, and the table of its kind after it.
  record IsKept (k : Kind) (table : String) (before : List (Row F)) (w : W) : Type 0 where
    device : DbDevice
    named : device.device_id ≡ device_id
    read : db.gorm.first_device w h device_id ≡ found device
    added :
        entries (column_view fl table column) (rows w h)
        ≡ entries (column_view fl table column) before
          ++ record { owner = device.id; time = now; value = value_of fl k column payload } ∷ []

  abbrev reading : Kind → DbDevice → Reading F
  reading k d = record { owner = d.id; time = now; value = value_of fl k column payload }

  kept_in :
      (k : Kind) (table : String) (row : DbDevice → Row F) (extras : DbDevice → List (Row F))
      (before : List (Row F)) (w : W)
      → ((d : DbDevice) → (column_view fl table column).pick (row d) ≡ some (reading k d))
      → ((d : DbDevice) → All (λ r. (column_view fl table column).pick r ≡ none) (extras d))
      → IsStored db.gorm rows lawful device_id row extras h before w
      → IsKept k table before w
  kept_in k table row extras before w picked others s = record {
    device = s.device;
    named = s.named;
    read = s.read;
    added =
        entries-IsStored db.gorm rows lawful (column_view fl table column) device_id row extras h
          before w (reading k) picked others s;
  }

  link_others :
      (table : String) (d : DbDevice)
      → All (λ r. (column_view fl table column).pick r ≡ none) (link_quality_rows fl now d payload)
  link_others table d =
      link_quality_of_others (column_view fl table column) fl now payload d (λ x. refl)

  extra_others :
      (table : String) (d : DbDevice)
      → All
          (λ r. (column_view fl table column).pick r ≡ none)
          (battery_rows fl now d payload ++ link_quality_rows fl now d payload)
  extra_others table d =
      All-append _ (battery_rows fl now d payload) _
        (battery_of_others (column_view fl table column) fl now payload d (λ x. refl))
        (link_others table d)

  kept :
      (k : Kind) (table : String)
      → some table ≡ table_of k
      → (before : List (Row F)) (w : W)
      → KindStored fl db.gorm rows lawful saves now device_id sensor_type payload h k before w
      → IsKept k table before w
  unfolding moisture_row water_level_row valve_row room_row
  kept moisture table e before w s = rw (some_inj e) (
      kept_in moisture "moisture_measurements" _ _ before w (λ d. refl)
        (extra_others "moisture_measurements") s)
  kept water_level table e before w s = rw (some_inj e) (
      kept_in water_level "water_level_measurements" _ _ before w (λ d. refl)
        (extra_others "water_level_measurements") s)
  kept valve table e before w s = rw (some_inj e) (
      kept_in valve "valve_measurements" _ _ before w (λ d. refl)
        (extra_others "valve_measurements") s)
  kept room table e before w s = rw (some_inj e) (
      kept_in room "room_measurements" _ _ before w (λ d. refl) (link_others "room_measurements") s)
  kept other table e before w s = absurd s

only_new :
    {F : Type 0} (id : ℕ) (start : ℤ) (r : Reading F) (old : List (Reading F))
    → All (λ q. Reading.time q <ℤ start) old
    → r.owner ≡ id
    → start ≤ℤ r.time
    → select (is_matched id start) (old ++ r ∷ []) ≡ r ∷ []
only_new id start r [] older own now = ground (arith, eqb_iff r.owner id)
only_new id start r (q ∷ old) older own now =
    let rest = only_new id start r old older.1 own now in let first = older.0 in ground arith

module _ {W H F : Type 0} (fl : Float64 F) (db : Averages W H F) (rows : W → H → List (Row F))
    (lawful : IsLawful db.gorm rows)
    (saves : (w : W) (h : H) (d : DbDevice) → (db.gorm.save_device w h d).1 ≡ ok tt)
    (reads : ReadsRows fl db rows) where
  -- A stored value that is the only one of the window is measured: the device that it was stored
  -- for, with the value and its time.
  pub scan_average-KindStored :
      (now : ℤ) (device_id sensor_type : String) (payload : Payload F) (h : H) (field : String)
      (table : String)
      → table_of (kind sensor_type) ≡ some table
      → (clock since : ℤ) (before : List (Row F)) (w : W)
      → All
          (λ r. Reading.time r <ℤ window_start clock (window since))
          (entries (column_view fl table (get_measurement_column field)) before)
      → window_start clock (window since) ≤ℤ now
      → now ≢ pos 0
      → (x : F) → value_of fl (kind sensor_type) (get_measurement_column field) payload ≡ some x
      → KindStored fl db.gorm rows lawful saves now device_id sensor_type payload h
          (kind sensor_type)
          before
          w
      → (d : DbDevice) × (d.device_id ≡ device_id)
        × (db.gorm.first_device w h device_id ≡ found d)
        × (db.scan_average w h table
              (get_measurement_column field)
              d.id
              (window_start clock (window since))
            ≡ found (record { avg_value = x; last_timestamp = now }))
  scan_average-KindStored now device_id sensor_type payload h field table supported clock since
        before w older recent dated x is_x stored =
      let column = get_measurement_column field in
      let k =
        kept fl db rows lawful saves now device_id sensor_type payload h column (kind sensor_type)
          table (sym supported) before w stored in
      let start = window_start clock (window since) in
      let r : Reading F = record {
        owner = DbDevice.id (IsKept.device k);
        time = now;
        value = value_of fl (kind sensor_type) column payload;
      } in
      (
        IsKept.device k,
        IsKept.named k,
        IsKept.read k,
        reads.scan_single w h table column (DbDevice.id (IsKept.device k)) start r x
            (ap (select (is_matched (DbDevice.id (IsKept.device k)) start)) (IsKept.added k)
              ∙ only_new (DbDevice.id (IsKept.device k)) start r _ older refl recent)
            is_x,
      )
