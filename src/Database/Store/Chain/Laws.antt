-- ===== src/Database/Store/Chain/Laws.antt =====
-- Which writes a run of `StoreMeasurement` makes, and which rows it leaves behind.
use mathlib.Core.List.{append-nil, append_assoc}
use mqtt_sensor_exporter.Common.{
  ◌≡◌, refl, sym, ◌∙◌, String, true, false, List, [], ◌∷◌, ◌++◌, inl, inr, Error, wrapf, Result, ok,
  err, Result-cases, Bool-cases, and_next, with_context, ◌>>◌,
}
use mqtt_sensor_exporter.Payload.{Payload}
use mqtt_sensor_exporter.Database.Gorm.{DbDevice, Row, Lookup, found, not_found, failed, Gorm}
use mqtt_sensor_exporter.Database.Gorm.Laws.{IsLawful}
use mqtt_sensor_exporter.Database.Store.Device.{
  new_device, refreshed, needs_save, settle_device, ensure_device,
}
use mqtt_sensor_exporter.Database.Store.Device.Laws.{rows-ensure_device, device_id-ensure_device}
use mqtt_sensor_exporter.Database.Store.Chain.{create_measurement, create_logged, store_chain}

module _ {W H F : Type 0} (g : Gorm W H F) (h : H) where
  -- The rows that `Create` is called for, one after another, and those of them that it has written:
  -- a row is left out only when its own `Create` has failed.
  pub data Creates : W → List (Row F) → List (Row F) → W → Type 0 where
    no_more : {w : W} → Creates w [] [] w
    written :
        {w w' : W} {r : Row F} {rs kept : List (Row F)}
        → (g.create w h r).1 ≡ ok tt
        → Creates (g.create w h r).0 rs kept w'
        → Creates w (r ∷ rs) (r ∷ kept) w'
    dropped :
        {w w' : W} {r : Row F} {rs kept : List (Row F)} {e : Error}
        → (g.create w h r).1 ≡ err e
        → Creates (g.create w h r).0 rs kept w'
        → Creates w (r ∷ rs) kept w'

  module _ (sensor_type id : String) (payload : Payload F) where
    -- The device that the rows are for, and the world when it has been found: a known one, which is
    -- saved first when a text of it has changed, or a new one as the database has created it.
    pub data Settled (w : W) : W → DbDevice → Type 0 where
      known :
          {d : DbDevice}
          → g.first_device w h id ≡ found d
          → needs_save payload d ≡ false
          → Settled w w (refreshed payload d)
      saved :
          {d : DbDevice}
          → g.first_device w h id ≡ found d
          → needs_save payload d ≡ true
          → Settled w (g.save_device w h (refreshed payload d)).0 (refreshed payload d)
      created :
          {d : DbDevice}
          → g.first_device w h id ≡ not_found
          → (g.create_device w h (new_device sensor_type id payload)).1 ≡ ok d
          → Settled w (g.create_device w h (new_device sensor_type id payload)).0 d

    -- Why nothing was stored, with the world and the error that are left.
    pub data Refused (text : String) (row : DbDevice → Row F) (w : W) : W → Error → Type 0 where
      no_query :
          {e : Error}
          → g.first_device w h id ≡ failed e
          → Refused text row w w (wrapf "failed to query device" e)
      no_device :
          {e : Error}
          → g.first_device w h id ≡ not_found
          → (g.create_device w h (new_device sensor_type id payload)).1 ≡ err e
          → Refused text row w
              (g.create_device w h (new_device sensor_type id payload)).0
              (wrapf "failed to create device" e)
      no_measurement :
          {w₁ : W} {d : DbDevice} {e : Error}
          → Settled w w₁ d
          → (g.create w₁ h (row d)).1 ≡ err e
          → Refused text row w (g.create w₁ h (row d)).0 (wrapf text e)

    -- What one message adds to the tables: the measurement of its device, and then each of the extra
    -- rows that the database takes.
    pub record Stored (rows : W → H → List (Row F)) (row : DbDevice → Row F)
        (extras : DbDevice → List (Row F)) (w w' : W) : Type 0 where
      pub settled : W
      pub device : DbDevice
      pub its : Settled w settled device
      pub named : device.device_id ≡ id
      pub measured : (g.create settled h (row device)).1 ≡ ok tt
      pub kept : List (Row F)
      pub rest : Creates (g.create settled h (row device)).0 (extras device) kept w'
      pub added : rows w' h ≡ rows w h ++ row device ∷ kept

    -- A reported success has stored the measurement, a reported error has stored nothing.
    abbrev pub StoreOutcome :
        (W → H → List (Row F))
        → String
        → (DbDevice → Row F)
        → (DbDevice → List (Row F))
        → W
        → W × Result (Unit {0})
        → Type 0
    StoreOutcome rows text row extras w (w', ok _) = Stored rows row extras w w'
    StoreOutcome rows text row extras w (w', err e) =
        Refused text row w w' e × (rows w' h ≡ rows w h)

module _ {W H F : Type 0} (g : Gorm W H F) (rows : W → H → List (Row F)) (lawful : IsLawful g rows)
    (h : H) where
  pub create_logged-Creates :
      (extras : List (Row F)) (w : W)
      → (kept : List (Row F)) × Creates g h w extras kept (create_logged g h extras w).0
        × (rows (create_logged g h extras w).0 h ≡ rows w h ++ kept)
  unfolding create_logged
  create_logged-Creates [] w = ([], no_more, sym (append-nil (rows w h)))
  create_logged-Creates (r ∷ extras) w =
      let (kept, all, e) = create_logged-Creates extras (g.create w h r).0 in
      elim (Result-cases (g.create w h r).1) [
        | inl (tt, good) ↦ (
          r ∷ kept,
          written good all,
          e ∙ rw (lawful.rows-create w h r good) (append_assoc (rows w h) (r ∷ []) kept),
        )
        | inr (x, bad) ↦ (kept, dropped bad all, e ∙ rw (lawful.rows-create_err w h r x bad))
      ]

  pub create_logged_ok : (extras : List (Row F)) (w : W) → (create_logged g h extras w).1 ≡ ok tt
  unfolding create_logged
  create_logged_ok [] w = refl
  create_logged_ok (r ∷ extras) w = create_logged_ok extras (g.create w h r).0

  module _ (st text : String) (row : DbDevice → Row F) (extras : DbDevice → List (Row F))
      (id : String) (payload : Payload F) (w : W) where
    abbrev Good : W × Result (Unit {0}) → Type 0
    Good = StoreOutcome g h st id payload rows text row extras w

    after_measurement :
        (w₁ : W) (d : DbDevice)
        → Settled g h st id payload w w₁ d
        → d.device_id ≡ id
        → rows w₁ h ≡ rows w h
        → Good (
            and_next
              (with_context text (g.create w₁ h (row d)))
              (λ _. create_logged g h (extras d)))
    after_measurement w₁ d its named same = go (g.create w₁ h (row d)).1 refl
      where
        go :
            (r : Result (Unit {0}))
            → (g.create w₁ h (row d)).1 ≡ r
            → Good (
                and_next
                  (with_context text ((g.create w₁ h (row d)).0, r))
                  (λ _. create_logged g h (extras d)))
        go (err x) e = (no_measurement its e, lawful.rows-create_err w₁ h (row d) x e ∙ same)
        go (ok tt) e =
            let (kept, all, more) = create_logged-Creates (extras d) (g.create w₁ h (row d)).0 in
            rw (create_logged_ok (extras d) (g.create w₁ h (row d)).0) (record {
              settled = w₁;
              device = d;
              its = its;
              named = named;
              measured = e;
              kept = kept;
              rest = all;
              added =
                  more
                  ∙ rw (lawful.rows-create w₁ h (row d) e, same)
                      (append_assoc (rows w h) (row d ∷ []) kept);
            })

    after_device :
        (l : Lookup DbDevice)
        → g.first_device w h id ≡ l
        → rows (settle_device g st id payload h l w).0 h ≡ rows w h
        → ((d : DbDevice) → (settle_device g st id payload h l w).1 ≡ ok d → d.device_id ≡ id)
        → Good (
            and_next
              (settle_device g st id payload h l w)
              (λ d. create_measurement g text h (row d) >> create_logged g h (extras d)))
    unfolding create_measurement settle_device
    after_device (failed x) e same named = (no_query e, refl)
    after_device (found d) e same named = elim (Bool-cases (needs_save payload d)) [
      | inl s ↦ rw s (
          after_measurement (g.save_device w h (refreshed payload d)).0 (refreshed payload d)
            (saved e s) (named (refreshed payload d) refl) (rw s at same))
      | inr s ↦ rw s (
          after_measurement w (refreshed payload d) (known e s) (named (refreshed payload d) refl)
            refl)
    ]
    after_device not_found e same named =
        go (g.create_device w h (new_device st id payload)).1 refl named
      where
        made : W
        made = (g.create_device w h (new_device st id payload)).0

        go :
            (r : Result DbDevice)
            → (g.create_device w h (new_device st id payload)).1 ≡ r
            → ((d : DbDevice)
                → (with_context "failed to create device" (made, r)).1 ≡ ok d
                → d.device_id ≡ id)
            → Good (
                and_next
                  (with_context "failed to create device" (made, r))
                  (λ d. create_measurement g text h (row d) >> create_logged g h (extras d)))
        go (err x) f its = (no_device e f, same)
        go (ok d) f its = after_measurement made d (created e f) (its d refl) same

  -- On a lawful database: a success has found the device of the name under its own identifier, or
  -- created it, has added its measurement, and has called `Create` for each extra row after it, of
  -- which only those are missing that `Create` has failed for. An error has added no row, and is that
  -- of the query for the device, of its creation, or of the measurement's.
  pub store_chain_outcome :
      (st text : String) (row : DbDevice → Row F) (extras : DbDevice → List (Row F)) (id : String)
      (payload : Payload F) (w : W)
      → StoreOutcome g h st id payload rows text row extras w
          (store_chain g st text row extras id payload h w)
  unfolding store_chain ensure_device
  store_chain_outcome st text row extras id payload w =
      after_device st text row extras id payload w (g.first_device w h id) refl
        (unfold ensure_device in rows-ensure_device g rows lawful st id payload h w)
        (unfold ensure_device in device_id-ensure_device g rows lawful st id payload h w)
