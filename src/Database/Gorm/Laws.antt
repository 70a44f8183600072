-- ===== src/Database/Gorm/Laws.antt =====
-- What the storage code relies on: a write that reports success is seen by the next read, one that
-- reports an error leaves the tables as they were, and the tables do not disturb one another.
use mqtt_sensor_exporter.Common.{◌≡◌, String, List, [], ◌∷◌, ◌++◌, Error, ok, err}
use mqtt_sensor_exporter.Database.Gorm.{DbDevice, Row, found, not_found, Gorm}

-- `rows w h` are the measurement rows behind a handle, in the order of their creation.
pub record IsLawful {W H F : Type 0} (g : Gorm W H F) (rows : W → H → List (Row F)) : Type 0 where
  pub rows-create :
      (w : W) (h : H) (r : Row F)
      → (g.create w h r).1 ≡ ok tt
      → rows (g.create w h r).0 h ≡ rows w h ++ r ∷ []
  pub rows-create_err :
      (w : W) (h : H) (r : Row F) (e : Error)
      → (g.create w h r).1 ≡ err e
      → rows (g.create w h r).0 h ≡ rows w h
  pub rows-create_device :
      (w : W) (h : H) (d : DbDevice) → rows (g.create_device w h d).0 h ≡ rows w h
  pub rows-save_device : (w : W) (h : H) (d : DbDevice) → rows (g.save_device w h d).0 h ≡ rows w h
  pub first_device-device_id :
      (w : W) (h : H) (id : String) (d : DbDevice)
      → g.first_device w h id ≡ found d
      → d.device_id ≡ id
  pub create_device-fields :
      (w : W) (h : H) (d d' : DbDevice)
      → (g.create_device w h d).1 ≡ ok d'
      → d' ≡ record d { id = d'.id }
  pub first_device-create_device :
      (w : W) (h : H) (d d' : DbDevice)
      → g.first_device w h d.device_id ≡ not_found
      → (g.create_device w h d).1 ≡ ok d'
      → g.first_device (g.create_device w h d).0 h d.device_id ≡ found d'
  pub first_device-save_device :
      (w : W) (h : H) (d old : DbDevice)
      → g.first_device w h d.device_id ≡ found old
      → old.id ≡ d.id
      → (g.save_device w h d).1 ≡ ok tt
      → g.first_device (g.save_device w h d).0 h d.device_id ≡ found d
  pub first_device-create :
      (w : W) (h : H) (r : Row F) (id : String)
      → g.first_device (g.create w h r).0 h id ≡ g.first_device w h id
