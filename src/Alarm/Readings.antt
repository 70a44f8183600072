-- ===== src/Alarm/Readings.antt =====
-- What the AVG query of alerts_service.go finds in the rows that the storage handlers write.
use mqtt_sensor_exporter.Common.{
  ℕ, ◌≡◌, String, ◌==◌, Bool, not, ◌&&◌, Option, none, some, List, [], ◌∷◌, if◌then◌else◌, eqb,
  select,
}
use mqtt_sensor_exporter.Common.Int.{ℤ, ltb_ℤ}
use mqtt_sensor_exporter.Float.{Float64}
use mqtt_sensor_exporter.Database.Gorm.{Row, moisture, water_level, valve, room, found}
use mqtt_sensor_exporter.Database.Queries.Tables.{View, entries}
use mqtt_sensor_exporter.Api.Measure.{Averages}

-- A row of a measurement table, with its value in one column; NULL is `none`.
pub record Reading (F : Type 0) : Type 0 where
  pub owner : ℕ
  pub time : ℤ
  pub value : Option F

abbrev pub climate_cell : {F : Type 0} → String → Option F → Option F → Option F
climate_cell column temperature humidity =
    if column == "temperature" then temperature else if column == "humidity" then humidity else none

abbrev pub named_cell : {F : Type 0} → String → String → Option F → Option F
named_cell name column value = if column == name then value else none

module _ {F : Type 0} (fl : Float64 F) where
  -- A whole number as the database averages it.
  abbrev pub as_number : Option ℤ → Option F
  as_number none = none
  as_number (some n) = some (fl.of_int n)

  abbrev pub in_table : {A : Type 0} → String → String → A → Option A
  in_table name table a = if table == name then some a else none

  -- The row in the named table, by the columns that `getMeasurementColumn` names.
  abbrev pub reading_of : String → String → Row F → Option (Reading F)
  reading_of table column (moisture m) = in_table "moisture_measurements" table (record {
    owner = m.device_id;
    time = m.timestamp;
    value = climate_cell column m.temperature m.humidity;
  })
  reading_of table column (room m) = in_table "room_measurements" table (record {
    owner = m.device_id;
    time = m.timestamp;
    value = climate_cell column m.temperature m.humidity;
  })
  reading_of table column (water_level m) = in_table "water_level_measurements" table (record {
    owner = m.device_id;
    time = m.timestamp;
    value = named_cell "level" column (as_number m.level);
  })
  reading_of table column (valve m) = in_table "valve_measurements" table (record {
    owner = m.device_id;
    time = m.timestamp;
    value = named_cell "power" column (as_number m.power);
  })
  reading_of table column _ = none

  abbrev pub column_view : String → String → View F (Reading F)
  column_view table column = record {
    pick = reading_of table column;
    time = λ r. r.time;
    owner = λ r. r.owner;
  }

-- `device_id = ? AND timestamp >= ?`
abbrev pub is_matched : {F : Type 0} → ℕ → ℤ → Reading F → Bool
is_matched id start r = eqb r.owner id && not (ltb_ℤ r.time start)

-- What is asked of the query, where the rows that it reads are a single one: the average of one
-- value is the value, and the latest of one time is the time.
pub record ReadsRows {W H F : Type 0} (fl : Float64 F) (db : Averages W H F)
    (rows : W → H → List (Row F)) : Type 0 where
  pub scan_single :
      (w : W) (h : H) (table column : String) (id : ℕ) (start : ℤ) (r : Reading F) (x : F)
      → select (is_matched id start) (entries (column_view fl table column) (rows w h)) ≡ r ∷ []
      → r.value ≡ some x
      → db.scan_average w h table column id start
        ≡ found (record { avg_value = x; last_timestamp = r.time })
