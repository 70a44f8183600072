-- ===== src/Api/Alerts/Laws.antt =====
-- The alerts that are returned are those that are triggered.
use mathlib.Core.List.{Memᴰ}
use mathlib.Core.Path.{subst}
use mqtt_sensor_exporter.Common.{
  some_inj, ◌≡◌, refl, sym, ap, ◌↔◌, ◌⊎◌, inl, inr, String, Option, none, some, List, [], ◌∷◌, ok,
}
use mqtt_sensor_exporter.Common.Int.{ℤ}
use mqtt_sensor_exporter.Float.{Float64}
use mqtt_sensor_exporter.Kube.{Device, Cluster}
use mqtt_sensor_exporter.Api.Filters.{AlertFilters}
use mqtt_sensor_exporter.Api.Measure.{Averages}
use mqtt_sensor_exporter.Api.Alerts.{AlertDevice, append_some, alerts_of, get_triggered_alerts}
use mqtt_sensor_exporter.Api.Alerts.Spec.{IsTriggered}
use mqtt_sensor_exporter.Api.Alerts.Rounds.{Triggered, from_round, to_round}

module _ {W H F : Type 0} (fl : Float64 F) (db : Averages W H F)
    (db_getter : Device → String → Option H) (now : ℤ) (clock : Device → ℤ) (fs : AlertFilters)
    (w : W) where
  -- The rounds, one after the other.
  Memᴰ-append_some :
      (x : AlertDevice F) (o : Option (AlertDevice F)) (rest : List (AlertDevice F))
      → Memᴰ x (append_some fl db db_getter now clock fs w o rest) ↔ ((o ≡ some x) ⊎ Memᴰ x rest)
  Memᴰ-append_some x none rest = (inr, λ h. elim h [ inl e ↦ cc e | inr m ↦ m ])
  Memᴰ-append_some x (some a) rest =
      (λ m. from_cons m, λ h. elim h [ inl e ↦ Memᴰ.head (sym (some_inj e)) | inr m ↦ Memᴰ.tail m ])
    where
      from_cons : Memᴰ x (a ∷ rest) → (some a ≡ some x) ⊎ Memᴰ x rest
      from_cons (Memᴰ.head q) = inl (ap some (sym q))
      from_cons (Memᴰ.tail m) = inr m

  Memᴰ-alerts_of :
      (x : AlertDevice F) (devices : List Device)
      → Memᴰ x (alerts_of fl db db_getter now clock fs w devices)
        ↔ ((d : Device) × Memᴰ d devices × Triggered fl db db_getter now clock fs w d x)
  unfolding alerts_of
  Memᴰ-alerts_of x [] = (λ m. elim m [ ], λ t. elim t.1 [ ])
  Memᴰ-alerts_of x (d ∷ devices) = (
    λ m. elim ((Memᴰ-append_some x _ _).0 m) [
      | inl e ↦ (d, Memᴰ.head refl, from_round fl db db_getter now clock fs w d x _ refl e)
      | inr m' ↦ let (d', k, t) = (Memᴰ-alerts_of x devices).0 m' in (d', Memᴰ.tail k, t)
    ],
    λ t. back (λ d' k t. (Memᴰ-alerts_of x devices).1 (d', k, t)) t.0 t.1 t.2,
  )
    where
      back :
          ((d' : Device)
            → Memᴰ d' devices
            → Triggered fl db db_getter now clock fs w d' x
            → Memᴰ x (alerts_of fl db db_getter now clock fs w devices))
          → (d' : Device) → Memᴰ d' (d ∷ devices)
          → Triggered fl db db_getter now clock fs w d' x
          → Memᴰ x (alerts_of fl db db_getter now clock fs w (d ∷ devices))
      back rest d' (Memᴰ.head q) t = (Memᴰ-append_some x _ _).1 (
          inl (
            to_round fl db db_getter now clock fs w d x
              (subst (λ e. Triggered fl db db_getter now clock fs w e x) q t)))
      back rest d' (Memᴰ.tail k) t = (Memᴰ-append_some x _ _).1 (inr (rest d' k t))

  -- When the devices can be listed, an alert is in the list that the service returns just when a
  -- listed device has triggered it: none is missed, and none is returned that should not be.
  pub get_triggered_alerts-Triggered :
      (cluster : Cluster W) (devices : List Device) (alerts : List (AlertDevice F))
      (x : AlertDevice F)
      → cluster.list_all_devices w ≡ ok devices
      → get_triggered_alerts fl db db_getter now clock fs w cluster ≡ ok alerts
      → Memᴰ x alerts
        ↔ ((d : Device) × Memᴰ d devices × IsTriggered fl db db_getter now clock fs w d x)
  unfolding get_triggered_alerts
  get_triggered_alerts-Triggered cluster devices alerts x listed returned =
      rw (ok_inj (rw listed at returned)) at (Memᴰ-alerts_of x devices)
    where
      ok_inj : {a b : List (AlertDevice F)} → ok a ≡ ok b → a ≡ b
      ok_inj e = cc
