-- ===== src/Api/Alerts/Window.antt =====
-- The window that a request without a `since` filter is judged by.
use mathlib.Core.Path.{subst}
use mqtt_sensor_exporter.Common.{
  ℕ, Ensures, some_inj, if_true, ◌≡◌, refl, sym, ◌∙◌, ap, String, false, ◌⊎◌, not, Option, none,
  some, List, [], ◌∷◌, inl, inr, Result, ok, err, wrapped, arith, if◌then◌else◌, Bool-cases,
  if_false,
}
use mqtt_sensor_exporter.Common.Int.{ℤ, pos, negsuc, ◌≤ℤ◌, ◌+ℤ◌, ◌-ℤ◌, wrap_int, eqb_ℤ}
use mqtt_sensor_exporter.Float.{Float64}
use mqtt_sensor_exporter.Kube.{Device, AlertCondition, Cluster}
use mqtt_sensor_exporter.Database.Gorm.{DbDevice, Lookup, found, not_found, failed}
use mqtt_sensor_exporter.Api.Duration.{minute}
use mqtt_sensor_exporter.Api.Filters.{AlertFilters}
use mqtt_sensor_exporter.Api.Measure.{
  Average, Averages, Measured, window_start, window, checked_average, average_in,
  get_average_measurement, measure_device, get_measurement_value,
}
use mqtt_sensor_exporter.Api.Alerts.{
  passes_all, too_old, judge, judge_measured, consider, alerts_of, listed, get_triggered_alerts,
}

-- What `WHERE timestamp >= ?` says of the last timestamp of the rows; over no rows it is the zero
-- time.
abbrev pub ReadsWindow : {W H F : Type 0} → Averages W H F → W → Type 0
ReadsWindow {W} {H} {F} db w =
    (h : H) (table column : String) (id : ℕ) (start : ℤ) (a : Average F)
    → db.scan_average w h table column id start ≡ found a
    → (a.last_timestamp ≡ pos 0) ⊎ (start ≤ℤ a.last_timestamp)

window_start_mono : (a b : ℤ) → a ≤ℤ b → window_start a minute ≤ℤ window_start b minute
unfolding ◌+ℤ◌ ◌-ℤ◌ wrap_int
window_start_mono (pos a) (pos b) h = ground arith
window_start_mono (pos a) (negsuc b) h = ground arith
window_start_mono (negsuc a) (pos b) h = ground arith
window_start_mono (negsuc a) (negsuc b) h = ground arith

dated_window :
    (last start : ℤ) → eqb_ℤ last (pos 0) ≡ false → (last ≡ pos 0) ⊎ (start ≤ℤ last) → start ≤ℤ last
dated_window last start dated (inl zero) = cc (dated, ap (λ t. eqb_ℤ t (pos 0)) zero)
dated_window last start dated (inr after) = after

le_trans : (a b c : ℤ) → a ≤ℤ b → b ≤ℤ c → a ≤ℤ c
le_trans a b c h k = omega arith

not_too_old : (now since last : ℤ) → window_start now since ≤ℤ last → too_old now since last ≡ false
unfolding too_old
not_too_old now since last h = ground arith

module _ {W H F : Type 0} (fl : Float64 F) (db : Averages W H F) (w : W)
    (reads : ReadsWindow db w) where
  -- A measurement, if there is one, is not older than `start`.
  abbrev IsFresh : ℤ → Measured F → Type 0
  IsFresh start m = (a : Average F) → m.average ≡ some a → start ≤ℤ a.last_timestamp

  IsFresh-checked_average :
      (h : H) (table column : String) (r : DbDevice) (start : ℤ) (l : Lookup (Average F))
      → db.scan_average w h table column r.id start ≡ l
      → Ensures (IsFresh start) (checked_average r l)
  unfolding checked_average
  IsFresh-checked_average h table column r start not_found e = λ a q. cc q
  IsFresh-checked_average h table column r start (failed x) e = tt
  IsFresh-checked_average h table column r start (found b) e = λ a q.
      elim (Bool-cases (eqb_ℤ b.last_timestamp (pos 0))) [
        | inl undated ↦ cc (sym (if_true _ none (some b) undated) ∙ q)
        | inr dated ↦
            subst (λ c. start ≤ℤ c.last_timestamp)
              (some_inj (sym (if_false _ none (some b) dated) ∙ q))
              (dated_window b.last_timestamp start dated (reads h table column r.id start b e))
      ]

  IsFresh-average_in :
      (now : ℤ) (h : H) (r : DbDevice) (t : Option String) (sensor_type field : String) (since : ℤ)
      → Ensures
          (IsFresh (window_start now since))
          (average_in db now t w h r sensor_type field since)
  unfolding average_in
  IsFresh-average_in now h r none sensor_type field since = tt
  IsFresh-average_in now h r (some t) sensor_type field since =
      IsFresh-checked_average h t _ r _ _ refl

  IsFresh-measure_device :
      (now : ℤ) (h : H) (l : Lookup DbDevice) (id sensor_type field : String) (since : ℤ)
      → Ensures
          (IsFresh (window_start now (window since)))
          (measure_device db now w h id sensor_type field since l)
  unfolding measure_device get_average_measurement
  IsFresh-measure_device now h not_found id sensor_type field since = tt
  IsFresh-measure_device now h (failed x) id sensor_type field since = tt
  IsFresh-measure_device now h (found r) id sensor_type field since =
      IsFresh-average_in now h r _ _ _ _

  IsFresh-get_measurement_value :
      (now : ℤ) (o : Option H) (id sensor_type field : String) (since : ℤ)
      → Ensures
          (IsFresh (window_start now (window since)))
          (get_measurement_value db now w o id sensor_type field since)
  unfolding get_measurement_value
  IsFresh-get_measurement_value now none id sensor_type field since = tt
  IsFresh-get_measurement_value now (some h) id sensor_type field since =
      IsFresh-measure_device now h _ _ _ _ _

  -- The filter on the last measurement drops nothing that the query has found.
  judge_default :
      (now later : ℤ)
      → now ≤ℤ later
      → (d : Device) (c : AlertCondition) (r : DbDevice) (o : Option (Average F))
      → IsFresh (window_start later minute) (record { device = r; average = o })
      → judge fl now (pos 0) d c r o ≡ judge fl now minute d c r o
  unfolding judge too_old
  judge_default now later le d c r none fresh = refl
  judge_default now later le d c r (some a) fresh =
      let old : too_old now minute a.last_timestamp ≡ false =
        not_too_old now minute a.last_timestamp (
          le_trans (window_start now minute) (window_start later minute) a.last_timestamp
            (window_start_mono now later le) (fresh a refl)) in
      sym (if_false (too_old now minute a.last_timestamp) _ _ old)

  judge_measured_default :
      (now later : ℤ)
      → now ≤ℤ later
      → (d : Device) (c : AlertCondition) (m : Result (Measured F))
      → Ensures (IsFresh (window_start later minute)) m
      → judge_measured fl now (pos 0) d c m ≡ judge_measured fl now minute d c m
  unfolding judge_measured
  judge_measured_default now later le d c (err e) fresh = refl
  judge_measured_default now later le d c (ok m) fresh =
      judge_default now later le d c m.device m.average fresh

  -- The default is put in where the device has been found.
  same_device :
      (now : ℤ) (h : H) (l : Lookup DbDevice) (id sensor_type field : String)
      → measure_device db now w h id sensor_type field (pos 0) l
        ≡ measure_device db now w h id sensor_type field minute l
  unfolding measure_device
  same_device now h not_found id sensor_type field = refl
  same_device now h (failed x) id sensor_type field = refl
  same_device now h (found r) id sensor_type field = refl

  same_value :
      (now : ℤ) (o : Option H) (id sensor_type field : String)
      → get_measurement_value db now w o id sensor_type field (pos 0)
        ≡ get_measurement_value db now w o id sensor_type field minute
  unfolding get_measurement_value
  same_value now none id sensor_type field = refl
  same_value now (some h) id sensor_type field = same_device now h _ id sensor_type field

  module _ (db_getter : Device → String → Option H) (now : ℤ) (clock : Device → ℤ)
      (ticks : (d : Device) → now ≤ℤ clock d) (fs : AlertFilters) where
    consider_default :
        (d : Device) (o : Option AlertCondition)
        → consider fl db db_getter now clock (record fs { since = pos 0 }) w d o
          ≡ consider fl db db_getter now clock (record fs { since = minute }) w d o
    unfolding consider passes_all
    consider_default d none = refl
    consider_default d (some c) =
        let same =
          same_value (clock d) (db_getter d d.sensor_type) d.name d.sensor_type c.measurement in
        let fresh =
          IsFresh-get_measurement_value (clock d) (db_getter d d.sensor_type) d.name d.sensor_type
            c.measurement minute in
        ap (λ x. if d.disabled then none else if not (passes_all fs d) then none else x)
          (ap (judge_measured fl now (pos 0) d c) same
            ∙ judge_measured_default now (clock d) (ticks d) d c _ fresh)

    alerts_of_default :
        (devices : List Device)
        → alerts_of fl db db_getter now clock (record fs { since = pos 0 }) w devices
          ≡ alerts_of fl db db_getter now clock (record fs { since = minute }) w devices
    unfolding alerts_of
    alerts_of_default [] = refl
    alerts_of_default (d ∷ devices) =
        rw (consider_default d d.alert_condition, alerts_of_default devices)

    -- When a query's last timestamp is not before its start, or is the zero time because no row is
    -- there, and the clock does not go back during a request, a request without `since` gives the
    -- alerts of `since=1m`.
    pub get_triggered_alerts_default :
        (cluster : Cluster W)
        → get_triggered_alerts fl db db_getter now clock (record fs { since = pos 0 }) w cluster
          ≡ get_triggered_alerts fl db db_getter now clock (record fs { since = minute }) w cluster
    unfolding get_triggered_alerts
    get_triggered_alerts_default cluster = go (cluster.list_all_devices w)
      where
        go :
            (r : Result (List Device))
            → listed fl db db_getter now clock
                (record fs { since = pos 0 })
                w
                (wrapped "failed to list devices" r)
              ≡ listed fl db db_getter now clock
                  (record fs { since = minute })
                  w
                  (wrapped "failed to list devices" r)
        go (err e) = refl
        go (ok devices) = ap ok (alerts_of_default devices)
