-- ===== src/Alarm/Laws.antt =====
-- What a stored measurement does to the alerts.
use mqtt_sensor_exporter.Common.{
  ◌≡◌, ◌≢◌, refl, sym, ◌∙◌, ◌↔◌, String, false, Option, some, List, All, ok, arith,
}
use mqtt_sensor_exporter.Common.Int.{ℤ, pos, ◌≤ℤ◌, ◌<ℤ◌, eqb_ℤ}
use mqtt_sensor_exporter.Common.Order.{IsOrder}
use mqtt_sensor_exporter.Float.{Float64}
use mqtt_sensor_exporter.Kube.{Device, AlertCondition}
use mqtt_sensor_exporter.Payload.{Payload}
use mqtt_sensor_exporter.Database.Gorm.{DbDevice, Row}
use mqtt_sensor_exporter.Database.Gorm.Laws.{IsLawful}
use mqtt_sensor_exporter.Database.Kind.{kind}
use mqtt_sensor_exporter.Database.Queries.Tables.{entries}
use mqtt_sensor_exporter.Database.Manager.{Connections, store_measurement, get_db_for_sensor_type}
use mqtt_sensor_exporter.Database.Manager.Ready.{IsReady}
use mqtt_sensor_exporter.Api.Filters.{AlertFilters}
use mqtt_sensor_exporter.Api.Measure.{
  Averages, table_of, window_start, window, get_measurement_column,
}
use mqtt_sensor_exporter.Api.Alerts.{AlertDevice, alert_of}
use mqtt_sensor_exporter.Api.Alerts.Spec.{
  MatchesAll, IsRecent, IsReached, IsTriggered, passes_all_iff, eqb_ℤ_iff, too_old_iff,
  evaluate_alert_condition_iff,
}
use mqtt_sensor_exporter.Api.Alerts.Rounds.{
  judge_tests, consider-judge_measured, from_round, to_round,
}
use mqtt_sensor_exporter.Alarm.Readings.{Reading, column_view, ReadsRows}
use mqtt_sensor_exporter.Alarm.Kept.{
  IsShared, store_measurement-KindStored, get_db_for_sensor_type-IsShared,
}
use mqtt_sensor_exporter.Alarm.Measured.{value_of, scan_average-KindStored}

-- A device whose alert a request asks for.
pub record IsWatched (fs : AlertFilters) (d : Device) (c : AlertCondition) : Type 0 where
  pub configured : d.alert_condition ≡ some c
  pub enabled : d.disabled ≡ false
  pub matches : MatchesAll fs d

-- The time of a measurement lies in the window that a request looks at, whose clock says `listing`
-- for the list and `round` for the device, and every older row of the table lies before it.
pub record IsCurrent {F : Type 0} (fl : Float64 F) (fs : AlertFilters) (listing round now : ℤ)
    (table column : String) (before : List (Row F)) : Type 0 where
  pub inside : window_start round (window fs.since) ≤ℤ now
  pub recent : IsRecent listing fs.since now
  pub dated : now ≢ pos 0
  pub older :
      All
        (λ r. Reading.time r <ℤ window_start round (window fs.since))
        (entries (column_view fl table column) before)

module _ {W H F : Type 0} (fl : Float64 F) (db : Averages W H F) (rows : W → H → List (Row F))
    (lawful : IsLawful db.gorm rows)
    (saves : (w : W) (h : H) (d : DbDevice) → (db.gorm.save_device w h d).1 ≡ ok tt)
    (reads : ReadsRows fl db rows) (conns : Connections H) (ready : All (λ e. IsReady e.1) conns)
    (visit : Connections H → Connections H) (visit' : Device → Connections H → Connections H)
    (order : IsOrder visit) (order' : (e : Device) → IsOrder (visit' e)) where
  -- The databases that the service asks the manager for.
  abbrev pub getter : Device → String → Option H
  getter e sensor_type = get_db_for_sensor_type (visit' e) sensor_type conns

  module _ (d : Device) (c : AlertCondition) (h : H) (shared : IsShared d.sensor_type h conns)
      (table : String) (supported : table_of (kind d.sensor_type) ≡ some table) (now : ℤ)
      (payload : Payload F) (x : F)
      (reported : value_of fl (kind d.sensor_type) (get_measurement_column c.measurement) payload
        ≡ some x)
      (fs : AlertFilters) (watched : IsWatched fs d c) (listing : ℤ) (clock : Device → ℤ) where
    -- The alert of `d` for the value `x`, by the device as it is stored.
    abbrev pub alarm : DbDevice → AlertDevice F
    alarm stored = alert_of fl d c stored (record { avg_value = x; last_timestamp = now })

    -- On a lawful database, where no `Save` fails and the average of a single row is its value; when
    -- the connections have their handlers and those that support the type of `d` share a database:
    -- after a `StoreMeasurement` for `d` that succeeds, in whatever orders the connections are
    -- visited to store and to read, a request in whose window the new row is the only one of its
    -- table finds the alert of `d` triggered exactly if the value that was stored in the column of
    -- the condition reaches the threshold, and then with that value and its time.
    pub IsTriggered-store_measurement :
        (w : W)
        → IsCurrent fl fs listing
            (clock d)
            now
            table
            (get_measurement_column c.measurement)
            (rows w h)
        → (store_measurement fl db.gorm now visit conns d.name d.sensor_type payload w).1 ≡ ok tt
        → (stored : DbDevice) × (stored.device_id ≡ d.name)
          × ((y : AlertDevice F)
              → IsTriggered fl db getter listing clock fs
                  (store_measurement fl db.gorm now visit conns d.name d.sensor_type payload w).0
                  d
                  y
                ↔ (IsReached fl x c × (y ≡ alarm stored)))
    IsTriggered-store_measurement w current success =
        let w' = (store_measurement fl db.gorm now visit conns d.name d.sensor_type payload w).0 in
        let (there, kept) =
          store_measurement-KindStored fl db.gorm rows lawful saves now d.name d.sensor_type payload
            h visit order conns ready shared w success in
        let (stored, named, known, scanned) =
          scan_average-KindStored fl db rows lawful saves reads now d.name d.sensor_type payload h
            c.measurement table supported (clock d) fs.since (rows w h) w' current.older
            current.inside current.dated x reported kept in
        let round =
          consider-judge_measured fl db getter listing clock fs w' d c h stored table
            (record { avg_value = x; last_timestamp = now }) watched.configured watched.enabled
            ((passes_all_iff fs d).1 watched.matches)
            (get_db_for_sensor_type-IsShared (visit' d) (order' d) d.sensor_type h conns shared
              there)
            known supported scanned in
        (
          stored,
          named,
          λ y.
              let tests =
                judge_tests fl listing fs.since d c stored
                  (record { avg_value = x; last_timestamp = now }) y in
              (
                λ t.
                    let result =
                      tests.0 (sym round ∙ to_round fl db getter listing clock fs w' d y t) in
                    ((evaluate_alert_condition_iff fl x c).0 result.2, result.3),
                λ r. from_round fl db getter listing clock fs w' d y d.alert_condition refl (
                    round
                    ∙ tests.1 (
                      undated,
                      (too_old_iff listing fs.since now).1 current.recent,
                      (evaluate_alert_condition_iff fl x c).1 r.0,
                      r.1,
                    )),
              ),
        )
      where
        undated : eqb_ℤ now (pos 0) ≡ false
        undated = let no = current.dated in ground (arith, eqb_ℤ_iff now (pos 0), no)
