-- ===== src/Database/Store/Device/Laws.antt =====
-- What `ensure_device` leaves in the tables.
use mqtt_sensor_exporter.Common.{
  ◌≡◌, refl, ap, String, List, Bool-cases, inl, inr, ok, wrapped-eq-ok, arith,
}
use mqtt_sensor_exporter.Payload.{Payload}
use mqtt_sensor_exporter.Database.Gorm.{DbDevice, Row, Lookup, found, not_found, failed, Gorm}
use mqtt_sensor_exporter.Database.Gorm.Laws.{IsLawful}
use mqtt_sensor_exporter.Database.Store.Device.{
  new_device, refreshed, needs_save, settle_device, ensure_device,
}

-- The fields that a refresh leaves alone.
pub refreshed_keeps :
    {F : Type 0} (payload : Payload F) (d : DbDevice)
    → ((refreshed payload d).id ≡ d.id)
      × ((refreshed payload d).device_id ≡ d.device_id)
      × ((refreshed payload d).sensor_type ≡ d.sensor_type)
unfolding refreshed
refreshed_keeps payload d = (refl, refl, refl)

module _ {W H F : Type 0} (g : Gorm W H F) (rows : W → H → List (Row F))
    (lawful : IsLawful g rows) where
  rows-settle_device :
      (st id : String) (payload : Payload F) (h : H) (l : Lookup DbDevice) (w : W)
      → rows (settle_device g st id payload h l w).0 h ≡ rows w h
  unfolding settle_device
  rows-settle_device st id payload h not_found w = lawful.rows-create_device w h _
  rows-settle_device st id payload h (failed e) w = refl
  rows-settle_device st id payload h (found d) w = elim (Bool-cases (needs_save payload d)) [
    | inl e ↦ rw e (lawful.rows-save_device w h _)
    | inr e ↦ rw e
  ]

  -- No measurement is written.
  pub rows-ensure_device :
      (st id : String) (payload : Payload F) (h : H) (w : W)
      → rows (ensure_device g st id payload h w).0 h ≡ rows w h
  unfolding ensure_device
  rows-ensure_device st id payload h w = rows-settle_device st id payload h _ w

  device_id-settle_device :
      (st id : String) (payload : Payload F) (h : H) (l : Lookup DbDevice) (w : W) (d : DbDevice)
      → g.first_device w h id ≡ l
      → (settle_device g st id payload h l w).1 ≡ ok d
      → d.device_id ≡ id
  unfolding settle_device refreshed new_device
  device_id-settle_device st id payload h not_found w d e r =
      let made = wrapped-eq-ok _ _ r in
      ap (λ (x : DbDevice). x.device_id) (lawful.create_device-fields w h _ d made)
  device_id-settle_device st id payload h (failed x) w d e r = cc
  device_id-settle_device st id payload h (found old) w d e r =
      let same = lawful.first_device-device_id w h id old e in ground (arith, same)

  -- The device that is handed on bears the name that was asked for.
  pub device_id-ensure_device :
      (st id : String) (payload : Payload F) (h : H) (w : W) (d : DbDevice)
      → (ensure_device g st id payload h w).1 ≡ ok d
      → d.device_id ≡ id
  unfolding ensure_device
  device_id-ensure_device st id payload h w d r =
      device_id-settle_device st id payload h (g.first_device w h id) w d refl r
