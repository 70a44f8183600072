-- ===== src/Database/Store/Chain/Parts.antt =====
-- The rows that are written with their errors only logged: some of those that were to be written.
use mqtt_sensor_exporter.Common.{◌≡◌, List, [], ◌∷◌, ◌++◌}
use mqtt_sensor_exporter.Database.Gorm.{Row, Gorm}
use mqtt_sensor_exporter.Database.Gorm.Laws.{IsLawful}
use mqtt_sensor_exporter.Database.Store.Chain.{create_logged}
use mqtt_sensor_exporter.Database.Store.Chain.Laws.{
  Creates, no_more, written, dropped, create_logged-Creates,
}

-- The first list is the second with some elements left out.
pub data IsPart {A : Type 0} : List A → List A → Type 0 where
  done : IsPart [] []
  skip : {a : A} {kept all : List A} → IsPart kept all → IsPart kept (a ∷ all)
  keep : {a : A} {kept all : List A} → IsPart kept all → IsPart (a ∷ kept) (a ∷ all)

module _ {W H F : Type 0} (g : Gorm W H F) (rows : W → H → List (Row F)) (lawful : IsLawful g rows)
    (h : H) where
  Creates-IsPart :
      {w w' : W} {all kept : List (Row F)} → Creates g h w all kept w' → IsPart kept all
  Creates-IsPart no_more = done
  Creates-IsPart (written good rest) = keep (Creates-IsPart rest)
  Creates-IsPart (dropped bad rest) = skip (Creates-IsPart rest)

  pub rows-create_logged :
      (extras : List (Row F)) (w : W)
      → (kept : List (Row F)) × IsPart kept extras
        × (rows (create_logged g h extras w).0 h ≡ rows w h ++ kept)
  rows-create_logged extras w =
      let (kept, all, same) = create_logged-Creates g rows lawful h extras w in
      (kept, Creates-IsPart all, same)
