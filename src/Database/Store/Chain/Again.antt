-- ===== src/Database/Store/Chain/Again.antt =====
-- The next message of a device whose measurement has been stored.
use mqtt_sensor_exporter.Common.{◌≡◌, refl, sym, ◌∙◌, ap, String, List, ◌∷◌, ◌++◌, Result, ok, err}
use mqtt_sensor_exporter.Payload.{Payload, text_at}
use mqtt_sensor_exporter.Database.Gorm.{DbDevice, Row, Gorm}
use mqtt_sensor_exporter.Database.Gorm.Laws.{IsLawful}
use mqtt_sensor_exporter.Database.Store.Device.{
  needs_save, settle_device, ensure_device, short_addr_key, ieee_addr_key,
}
use mqtt_sensor_exporter.Database.Store.Device.Settled.{
  IsCleanPayload, ensure_device_of_found, ensure_device_reads_back, ensure_device-quiet,
}
use mqtt_sensor_exporter.Database.Store.Chain.{store_chain}
use mqtt_sensor_exporter.Database.Store.Chain.Laws.{
  Creates, no_more, written, dropped, Settled, known, saved, created, StoreOutcome,
  store_chain_outcome,
}

-- Two messages that name their device in the same way, whatever they measure.
pub record SameTexts {F : Type 0} (p q : Payload F) : Type 0 where
  pub same_name : text_at "Name" p ≡ text_at "Name" q
  pub same_short : text_at short_addr_key p ≡ text_at short_addr_key q
  pub same_ieee : text_at ieee_addr_key p ≡ text_at ieee_addr_key q

needs_save-SameTexts :
    {F : Type 0} (p q : Payload F) (d : DbDevice) → SameTexts p q → needs_save q d ≡ needs_save p d
unfolding needs_save
needs_save-SameTexts p q d same = rw (same.same_name, same.same_short, same.same_ieee)

module _ {W H F : Type 0} (g : Gorm W H F) (rows : W → H → List (Row F)) (lawful : IsLawful g rows)
    (h : H) where
  first_device-Creates :
      (id : String) {w w' : W} {all kept : List (Row F)}
      → Creates g h w all kept w'
      → g.first_device w' h id ≡ g.first_device w h id
  first_device-Creates id no_more = refl
  first_device-Creates id (written {w = w} {r = r} good rest) =
      first_device-Creates id rest ∙ lawful.first_device-create w h r id
  first_device-Creates id (dropped {w = w} {r = r} bad rest) =
      first_device-Creates id rest ∙ lawful.first_device-create w h r id

  module _ (saves : (w : W) (h : H) (d : DbDevice) → (g.save_device w h d).1 ≡ ok tt)
      (st id : String) where
    ensure_device-Settled :
        (p : Payload F) {w w₁ : W} {d : DbDevice}
        → Settled g h st id p w w₁ d
        → ((ensure_device g st id p h w).0 ≡ w₁) × ((ensure_device g st id p h w).1 ≡ ok d)
    unfolding ensure_device settle_device
    ensure_device-Settled p (known e quiet) = (rw (e, quiet) refl, rw e refl)
    ensure_device-Settled p (saved e save) = (rw (e, save) refl, rw e refl)
    ensure_device-Settled p (created e made) = (rw e refl, rw (e, made) refl)

    -- On a lawful database on which no `Save` fails: after a message whose texts are clean has been
    -- stored, with whatever of its extra rows, the next message of the device that carries the same
    -- texts, whatever it measures, writes no device: it is handed the device whose row has been
    -- added, and the world stays as it is.
    pub ensure_device-store_chain :
        (p q : Payload F)
        → IsCleanPayload p
        → SameTexts p q
        → (text : String) (row : DbDevice → Row F) (extras : DbDevice → List (Row F)) (w : W)
        → (store_chain g st text row extras id p h w).1 ≡ ok tt
        → let w' = (store_chain g st text row extras id p h w).0 in
          (d : DbDevice) × (ensure_device g st id q h w' ≡ (w', ok d))
          × (kept : List (Row F)) × (rows w' h ≡ rows w h ++ row d ∷ kept)
    ensure_device-store_chain p q clean same text row extras w success =
        go (store_chain g st text row extras id p h w)
          (store_chain_outcome g rows lawful h st text row extras id p w) success
      where
        go :
            (step : W × Result (Unit {0}))
            → StoreOutcome g h st id p rows text row extras w step
            → step.1 ≡ ok tt
            → (d : DbDevice) × (ensure_device g st id q h step.0 ≡ (step.0, ok d))
              × (kept : List (Row F)) × (rows step.0 h ≡ rows w h ++ row d ∷ kept)
        go (w', err e) outcome done = cc
        go (w', ok u) s done =
            let (at_end, handed_on) = ensure_device-Settled p s.its in
            let back =
              ensure_device_reads_back g rows lawful saves st id p h w s.device handed_on in
            (
              s.device,
              ensure_device_of_found g rows lawful saves st id q h w' s.device
                  (first_device-Creates id s.rest
                    ∙ lawful.first_device-create s.settled h (row s.device) id
                    ∙ ap (λ v. g.first_device v h id) (sym at_end)
                    ∙ back)
                  (needs_save-SameTexts p q s.device same
                    ∙ ensure_device-quiet g rows lawful saves st id p h clean w s.device handed_on),
              s.kept,
              s.added,
            )
