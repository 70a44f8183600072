-- ===== src/Database/Store/Device/Settled.antt =====
-- A second message from the same device: nothing is written when its texts are clean, and the
-- device is written again each time when its name is not.
use mathlib.Core.Path.{subst}
use text.Mathlib.TextPositions.{eq_refl}
use mqtt_sensor_exporter.Common.{
  ◌≡◌, refl, sym, String, true, false, List, Option, none, some, eq_iff, Bool-cases, inl, inr, ok,
  wrapped-eq-ok, arith,
}
use mqtt_sensor_exporter.Payload.{Payload, text_at}
use mqtt_sensor_exporter.Database.Gorm.{DbDevice, Row, Lookup, found, not_found, failed, Gorm}
use mqtt_sensor_exporter.Database.Gorm.Laws.{IsLawful}
use mqtt_sensor_exporter.Database.Text.{
  IsClean, sanitize_string, sanitize_string-IsClean, sanitize_string_of_IsClean,
}
use mqtt_sensor_exporter.Database.Store.Device.{
  sanitized, differs, refreshed_field, new_device, refreshed, needs_save, settle_device,
  ensure_device, short_addr_key, ieee_addr_key,
}

abbrev pub IsCleanText : Option String → Type 0
IsCleanText none = Unit
IsCleanText (some s) = IsClean s

-- The three texts that the handlers take from a payload hold no control characters.
pub record IsCleanPayload {F : Type 0} (payload : Payload F) : Type 0 where
  pub clean_name : IsCleanText (text_at "Name" payload)
  pub clean_short : IsCleanText (text_at short_addr_key payload)
  pub clean_ieee : IsCleanText (text_at ieee_addr_key payload)

differs-refreshed_field :
    (s : Option String) (old : String) → IsCleanText s → differs s (refreshed_field s old) ≡ false
differs-refreshed_field none old h = refl
differs-refreshed_field (some s) old h = elim (Bool-cases (differs (some s) old)) [
  | inl e ↦ rw e (rw (sanitize_string_of_IsClean s h, eq_refl s) (ground arith))
  | inr e ↦ rw e e
]

differs-sanitized : (s : Option String) → IsCleanText s → differs s (sanitized s) ≡ false
differs-sanitized none h = refl
differs-sanitized (some s) h = rw (sanitize_string_of_IsClean s h, eq_refl s) (ground arith)

module _ {F : Type 0} (payload : Payload F) (clean : IsCleanPayload payload) where
  needs_save-refreshed : (d : DbDevice) → needs_save payload (refreshed payload d) ≡ false
  unfolding needs_save refreshed
  needs_save-refreshed d = rw (
    differs-refreshed_field (text_at "Name" payload) d.device_name clean.clean_name,
    differs-refreshed_field (text_at short_addr_key payload) d.short_addr clean.clean_short,
    differs-refreshed_field (text_at ieee_addr_key payload) d.ieee_addr clean.clean_ieee,
  )

  needs_save-new_device :
      (st id : String) (n : DbDevice)
      → n ≡ record (new_device st id payload) { id = n.id }
      → needs_save payload n ≡ false
  unfolding needs_save new_device
  needs_save-new_device st id n e = rw e (
      rw (
        differs-sanitized (text_at "Name" payload) clean.clean_name,
        differs-sanitized (text_at short_addr_key payload) clean.clean_short,
        differs-sanitized (text_at ieee_addr_key payload) clean.clean_ieee,
      ))

refreshed_of_not-needs_save :
    {F : Type 0} (payload : Payload F) (d : DbDevice)
    → needs_save payload d ≡ false
    → refreshed payload d ≡ d
unfolding needs_save refreshed
refreshed_of_not-needs_save payload d h = ground arith

module _ {W H F : Type 0} (g : Gorm W H F) (rows : W → H → List (Row F)) (lawful : IsLawful g rows)
    (saves : (w : W) (h : H) (d : DbDevice) → (g.save_device w h d).1 ≡ ok tt) (st id : String)
    (payload : Payload F) (h : H) where
  -- A device that reads back and wants no save is handed on as it is.
  pub ensure_device_of_found :
      (w : W) (d : DbDevice)
      → g.first_device w h id ≡ found d
      → needs_save payload d ≡ false
      → ensure_device g st id payload h w ≡ (w, ok d)
  unfolding ensure_device settle_device
  ensure_device_of_found w d read quiet =
      rw read (rw (quiet, refreshed_of_not-needs_save payload d quiet))

  -- What was handed on reads back from the new tables.
  reads_back :
      (l : Lookup DbDevice) (w : W) (d : DbDevice)
      → g.first_device w h id ≡ l
      → (settle_device g st id payload h l w).1 ≡ ok d
      → g.first_device (settle_device g st id payload h l w).0 h id ≡ found d
  unfolding settle_device refreshed new_device
  reads_back not_found w d e r = lawful.first_device-create_device w h _ d e (wrapped-eq-ok _ _ r)
  reads_back (failed x) w d e r = cc
  reads_back (found old) w d e r = elim (Bool-cases (needs_save payload old)) [
    | inl save ↦
        let same : old.device_id ≡ id = lawful.first_device-device_id w h id old e in
        let d_eq : d ≡ refreshed payload old = ground arith in
        let back =
          lawful.first_device-save_device w h (refreshed payload old) old
            (subst (λ i. g.first_device w h i ≡ found old) (sym same) e) refl (saves w h _) in
        rw (save, d_eq)
          (subst
            (λ i.
              g.first_device (g.save_device w h (refreshed payload old)).0 h i
              ≡ found (refreshed payload old))
            same back)
    | inr quiet ↦
        let d_eq : d ≡ refreshed payload old = ground arith in
        rw (quiet, d_eq, refreshed_of_not-needs_save payload old quiet) e
  ]

  quiet_after :
      IsCleanPayload payload
      → (l : Lookup DbDevice) (w : W) (d : DbDevice)
      → (settle_device g st id payload h l w).1 ≡ ok d
      → needs_save payload d ≡ false
  unfolding settle_device
  quiet_after clean not_found w d r =
      needs_save-new_device payload clean st id d
        (lawful.create_device-fields w h _ d (wrapped-eq-ok _ _ r))
  quiet_after clean (failed x) w d r = cc
  quiet_after clean (found old) w d r =
      let d_eq : refreshed payload old ≡ d = ground arith in
      rw (← d_eq) (needs_save-refreshed payload clean old)

  -- The device that is handed on is the one that the next query finds.
  pub ensure_device_reads_back :
      (w : W) (d : DbDevice)
      → (ensure_device g st id payload h w).1 ≡ ok d
      → g.first_device (ensure_device g st id payload h w).0 h id ≡ found d
  unfolding ensure_device
  ensure_device_reads_back w d r = reads_back (g.first_device w h id) w d refl r

  -- A device that is handed on wants no save for the same texts.
  pub ensure_device-quiet :
      IsCleanPayload payload
      → (w : W) (d : DbDevice) → (ensure_device g st id payload h w).1 ≡ ok d
      → needs_save payload d ≡ false
  unfolding ensure_device
  ensure_device-quiet clean w d r = quiet_after clean (g.first_device w h id) w d r

-- A name that sanitizing changes is compared with its sanitized form, so a device with a clean name
-- wants a save now and wants one again after that save: every message writes it.
pub needs_save_again :
    {F : Type 0} (payload : Payload F) (d : DbDevice) (name : String)
    → text_at "Name" payload ≡ some name
    → ¬ IsClean name
    → IsClean d.device_name
    → (needs_save payload d ≡ true) × (needs_save payload (refreshed payload d) ≡ true)
unfolding needs_save refreshed
needs_save_again payload d name e dirty clean = (
  rw e (rw (changes d.device_name clean)),
  rw e (
      rw (changes d.device_name clean)
        (rw (changes (sanitize_string name) (sanitize_string-IsClean name)))),
)
  where
    changes : (old : String) → IsClean old → differs (some name) old ≡ true
    changes old c = ground (
      arith,
      eq_iff name "",
      eq_iff old name,
      λ (p : name ≡ ""). dirty (rw p tt),
      λ (p : old ≡ name). dirty (rw p at c),
    )
