-- ===== src/Tasmota/Telemetry/Laws.antt =====
-- What a telemetry message does.
use mathlib.Core.List.{Memᴰ}
use mqtt_sensor_exporter.Common.{
  ◌≡◌, refl, ◌⊎◌, ◌≢◌, inl, inr, String, eq_iff, Bool, false, Option, none, some, List, [], ◌∷◌,
  ◌==◌, All, any, find, Result, ok, err, Bool-cases,
}
use mqtt_sensor_exporter.Common.Dict.{Dict}
use mqtt_sensor_exporter.Common.Order.{IsOrder, find-eq-none, find-eq-some}
use mqtt_sensor_exporter.Float.{Float64}
use mqtt_sensor_exporter.Kube.{Device}
use mqtt_sensor_exporter.Database.Gorm.{DbDevice, Row}
use mqtt_sensor_exporter.Database.Gorm.Laws.{IsLawful}
use mqtt_sensor_exporter.Database.Store.Device.{new_device, refreshed}
use mqtt_sensor_exporter.Database.Manager.{Connections}
use mqtt_sensor_exporter.Database.Manager.Ready.{IsReady}
use mqtt_sensor_exporter.Database.Manager.Storing.{ManagerOutcome, store_measurement_outcome}
use mqtt_sensor_exporter.Tasmota.Types.{ZigbeeDevice, TelemetryMessage, MessageContext}
use mqtt_sensor_exporter.Tasmota.Corrections.{apply_correction_to_float, apply_correction_to_int}
use mqtt_sensor_exporter.Tasmota.Build.{build_payload, assignments}
use mqtt_sensor_exporter.Tasmota.Build.Laws.{text_at-short_addr, text_at-ieee_addr}
use mqtt_sensor_exporter.Tasmota.Telemetry.{
  Outside, store_measurement, update_device, update_found, update_listed, process_zigbee_device,
}

-- A device with the field `disabled` set anew.
abbrev pub with_disabled : Bool → Device → Device
with_disabled b device = record device { disabled = b }

module _ {W H F : Type 0} (o : Outside W H F) where
  -- Whether a device is disabled makes no difference: its messages are stored all the same.
  pub update_device-disabled :
      (manager : Option (Connections H)) (device : Device) (b : Bool) (zb : ZigbeeDevice F) (w : W)
      → update_device o manager (with_disabled b device) zb w ≡ update_device o manager device zb w
  unfolding update_device store_measurement build_payload assignments apply_correction_to_float
      apply_correction_to_int
  update_device-disabled none device b zb w = refl
  update_device-disabled (some conns) device b zb w = refl

-- The addresses of a sensor never reach the database: whatever a message says, a device that is
-- created for it has empty addresses, and a known one keeps those that it has.
pub addresses_never_stored :
    {F : Type 0} (fl : Float64 F) (device : Device) (zb : ZigbeeDevice F)
    (sensor_type device_id : String) (d : DbDevice)
    → let payload = build_payload fl device zb in
      ((new_device sensor_type device_id payload).short_addr ≡ "")
      × ((new_device sensor_type device_id payload).ieee_addr ≡ "")
      × ((refreshed payload d).short_addr ≡ d.short_addr)
      × ((refreshed payload d).ieee_addr ≡ d.ieee_addr)
unfolding new_device refreshed
addresses_never_stored fl device zb sensor_type device_id d =
    let s = text_at-short_addr fl device zb in
    let i = text_at-ieee_addr fl device zb in (rw s, rw i, rw s, rw i)

module _ {W H F : Type 0} (o : Outside W H F) (rows : W → H → List (Row F))
    (lawful : IsLawful o.gorm rows) (order : IsOrder o.visit) where
  -- What a message does for a device that was found: nothing without a manager or a sensor type,
  -- and else what the manager's `StoreMeasurement` does with the built payload.
  abbrev pub DeviceOutcome :
      Option (Connections H) → Device → ZigbeeDevice F → W → W × Result (Unit {0}) → Type 0
  DeviceOutcome none device zb w step = step ≡ (w, ok tt)
  DeviceOutcome (some conns) device zb w step =
      ((device.sensor_type ≡ "") × (step ≡ (w, ok tt)))
      ⊎ ((device.sensor_type ≢ "")
          × ManagerOutcome o.float64 o.gorm rows lawful o.now device.name device.sensor_type
              (build_payload o.float64 device zb) conns w step)

  -- What a message does, by what the list of the namespace's devices comes to.
  abbrev pub ListOutcome :
      Option (Connections H)
      → Result (List Device)
      → String
      → ZigbeeDevice F
      → W
      → W × Result (Unit {0})
      → Type 0
  ListOutcome manager (err e) short_addr zb w step = step ≡ (w, err e)
  ListOutcome manager (ok devices) short_addr zb w step =
      ((any (λ d. d.short_addr == short_addr) devices ≡ false) × (step ≡ (w, ok tt)))
      ⊎ ((device : Device) × (find (λ d. d.short_addr == short_addr) devices ≡ some device)
          × Memᴰ device devices
          × (device.short_addr ≡ short_addr)
          × DeviceOutcome manager device zb w step)

  abbrev pub IsReadyManager : Option (Connections H) → Type 0
  IsReadyManager none = Unit
  IsReadyManager (some conns) = All (λ e. IsReady e.1) conns

  update_device_outcome :
      (manager : Option (Connections H)) (device : Device) (zb : ZigbeeDevice F) (w : W)
      → IsReadyManager manager
      → DeviceOutcome manager device zb w (update_device o manager device zb w)
  unfolding update_device store_measurement
  update_device_outcome none device zb w ready = refl
  update_device_outcome (some conns) device zb w ready =
      elim (Bool-cases (device.sensor_type == "")) [
        | inl e ↦ rw e (inl ((eq_iff device.sensor_type "").0 e, refl))
        | inr e ↦ rw e (
            inr (
              λ p. typed p e,
              store_measurement_outcome o.float64 o.gorm rows lawful o.now device.name
                  device.sensor_type (build_payload o.float64 device zb) o.visit order conns ready
                  w,
            ))
      ]
    where
      typed : device.sensor_type ≡ "" → (device.sensor_type == "") ≡ false → ⊥
      typed p e = cc ((eq_iff device.sensor_type "").1 p)

  -- One device of a message on a lawful database, when every connection has its handlers and the
  -- connections are visited in some order, on every branch: an error of the list is returned; a
  -- device that no resource of the namespace names is skipped; for a resource with its short
  -- address the measurement goes to the manager if there is one and the resource has a sensor type.
  pub process_zigbee_device_outcome :
      (manager : Option (Connections H)) (namespace short_addr : String) (zb : ZigbeeDevice F)
      (w : W)
      → IsReadyManager manager
      → ListOutcome manager
          (o.cluster.list_devices w namespace)
          short_addr
          zb
          w
          (process_zigbee_device o manager namespace short_addr zb w)
  unfolding process_zigbee_device update_listed update_found
  process_zigbee_device_outcome manager namespace short_addr zb w ready =
      go (o.cluster.list_devices w namespace)
    where
      pick :
          (devices : List Device) (found : Option Device)
          → find (λ d. d.short_addr == short_addr) devices ≡ found
          → ListOutcome manager (ok devices) short_addr zb w (update_found o manager found zb w)
      pick devices none e = inl (find-eq-none (λ d. d.short_addr == short_addr) devices e, refl)
      pick devices (some device) e =
          let (m, same) = find-eq-some (λ d. d.short_addr == short_addr) devices device e in
          inr (
            device,
            e,
            m,
            (eq_iff device.short_addr short_addr).0 same,
            update_device_outcome manager device zb w ready,
          )

      go :
          (listing : Result (List Device))
          → ListOutcome manager listing short_addr zb w
              (update_listed o manager listing short_addr zb w)
      go (err e) = refl
      go (ok devices) = pick devices _ refl

  -- The devices of a message, one after the other, each in the world that the one before it left:
  -- what the code does for a device has the outcome that is described, and the end is the last world.
  abbrev pub Processed : Option (Connections H) → String → Dict (ZigbeeDevice F) → W → W → Type 0
  Processed manager namespace [] w w' = w' ≡ w
  Processed manager namespace ((short_addr, zb) ∷ rest) w w' =
      let step = process_zigbee_device o manager namespace short_addr zb w in
      ListOutcome manager (o.cluster.list_devices w namespace) short_addr zb w step
      × Processed manager namespace rest step.0 w'

  -- What a message comes to, by what its payload decodes to.
  abbrev pub MessageOutcome :
      Option (Connections H)
      → MessageContext
      → Result (TelemetryMessage F)
      → W
      → W × Result (Unit {0})
      → Type 0
  MessageOutcome manager context (err e) w step = step ≡ (w, err e)
  MessageOutcome manager context (ok msg) w step =
      (step.1 ≡ ok tt)
      × Processed manager context.bridge_namespace (o.visit_devices msg.zb_received) w step.0
