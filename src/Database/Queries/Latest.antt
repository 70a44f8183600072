-- ===== src/Database/Queries/Latest.antt =====
-- A measurement that has just been stored is the latest one of its device.
use mathlib.Core.List.{Memᴰ, append-nil}
use mqtt_sensor_exporter.Common.{
  ℕ, ◌≡◌, refl, ap, sym, ◌∙◌, String, Option, none, some, List, [], ◌∷◌, ◌++◌, Error, ok, err, All,
  ◌≢◌, Result, inl, inr, and_next, ◌⊎◌, ◌>>◌, with_context, arith,
}
use mqtt_sensor_exporter.Common.Order.{All-Memᴰ}
use mqtt_sensor_exporter.Common.Int.{◌<ℤ◌}
use mqtt_sensor_exporter.Payload.{Payload}
use mqtt_sensor_exporter.Database.Gorm.{DbDevice, Row, Lookup, found, not_found, failed, Gorm}
use mqtt_sensor_exporter.Database.Gorm.Laws.{IsLawful}
use mqtt_sensor_exporter.Database.Store.Device.{ensure_device}
use mqtt_sensor_exporter.Database.Store.Device.Laws.{rows-ensure_device, device_id-ensure_device}
use mqtt_sensor_exporter.Database.Store.Device.Settled.{ensure_device_reads_back}
use mqtt_sensor_exporter.Database.Store.Chain.{create_measurement, create_logged, store_chain}
use mqtt_sensor_exporter.Database.Store.Chain.Parts.{IsPart, done, skip, keep, rows-create_logged}
use mqtt_sensor_exporter.Database.Queries.{Table, latest_row, latest_for, get_latest_measurement}
use mqtt_sensor_exporter.Database.Queries.Tables.{View, cons_some, entries, IsQueryable}

module _ {F M : Type 0} (v : View F M) where
  cons_some-append : (o : Option M) (xs ys : List M) → cons_some o (xs ++ ys) ≡ cons_some o xs ++ ys
  cons_some-append none xs ys = refl
  cons_some-append (some x) xs ys = refl

  entries-append : (rs ss : List (Row F)) → entries v (rs ++ ss) ≡ entries v rs ++ entries v ss
  entries-append [] ss = refl
  entries-append (r ∷ rs) ss =
      ap (cons_some (v.pick r)) (entries-append rs ss) ∙ cons_some-append (v.pick r) _ _

  -- Rows of other tables.
  entries-IsPart :
      {kept all : List (Row F)}
      → IsPart kept all
      → All (λ r. v.pick r ≡ none) all
      → entries v kept ≡ []
  entries-IsPart done other = refl
  entries-IsPart (skip p) other = entries-IsPart p other.1
  entries-IsPart (keep p) other = rw other.0 (entries-IsPart p other.1)

Memᴰ-append : {A : Type 0} (x : A) (xs ys : List A) → Memᴰ x (xs ++ ys) → Memᴰ x xs ⊎ Memᴰ x ys
Memᴰ-append x [] ys m = inr m
Memᴰ-append x (y ∷ xs) ys (Memᴰ.head e) = inl (Memᴰ.head e)
Memᴰ-append x (y ∷ xs) ys (Memᴰ.tail m) = elim (Memᴰ-append x xs ys m) [
  | inl old ↦ inl (Memᴰ.tail old)
  | inr new ↦ inr new
]

Memᴰ-append_last : {A : Type 0} (x : A) (xs : List A) → Memᴰ x (xs ++ x ∷ [])
Memᴰ-append_last x [] = Memᴰ.head refl
Memᴰ-append_last x (y ∷ xs) = Memᴰ.tail (Memᴰ-append_last x xs)

module _ {W H F : Type 0} (g : Gorm W H F) (rows : W → H → List (Row F))
    (lawful : IsLawful g rows) where
  first_device-create_logged :
      (h : H) (extras : List (Row F)) (w : W) (id : String)
      → g.first_device (create_logged g h extras w).0 h id ≡ g.first_device w h id
  unfolding create_logged
  first_device-create_logged h [] w id = refl
  first_device-create_logged h (r ∷ extras) w id =
      first_device-create_logged h extras (g.create w h r).0 id
      ∙ lawful.first_device-create w h r id

  -- The device that a successful run has stored its measurement for, as the next query finds it.
  pub record IsStored (id : String) (row : DbDevice → Row F) (extras : DbDevice → List (Row F))
      (h : H) (before : List (Row F)) (w : W) : Type 0 where
    pub device : DbDevice
    pub named : device.device_id ≡ id
    pub read : g.first_device w h id ≡ found device
    pub kept : List (Row F)
    pub part : IsPart kept (extras device)
    pub added : rows w h ≡ (before ++ row device ∷ []) ++ kept

  module _ (text : String) (row : DbDevice → Row F) (extras : DbDevice → List (Row F)) (id : String)
      (h : H) (before : List (Row F)) where
    IsStored-after_create :
        (w : W) (d : DbDevice)
        → d.device_id ≡ id
        → g.first_device w h id ≡ found d
        → rows w h ≡ before
        → (step : W × Result (Unit {0})) → g.create w h (row d) ≡ step
        → (and_next (with_context text step) (λ _. create_logged g h (extras d))).1 ≡ ok tt
        → IsStored id row extras h before
            (and_next (with_context text step) (λ _. create_logged g h (extras d))).0
    IsStored-after_create w d named read same (w₁, err x) e r = cc
    IsStored-after_create w d named read same (w₁, ok u) e r =
        let (kept, part, more) = rows-create_logged g rows lawful h (extras d) w₁ in
        let made : rows w₁ h ≡ rows w h ++ row d ∷ [] =
          rw e at (lawful.rows-create w h (row d) (ap (λ s. s.1) e)) in
        let still : g.first_device w₁ h id ≡ g.first_device w h id =
          rw e at (lawful.first_device-create w h (row d) id) in
        record {
          device = d;
          named = named;
          read = first_device-create_logged h (extras d) w₁ id ∙ still ∙ read;
          kept = kept;
          part = part;
          added = more ∙ ap (λ t. t ++ kept) (made ∙ ap (λ t. t ++ row d ∷ []) same);
        }

    IsStored-after_device :
        (step : W × Result DbDevice)
        → rows step.0 h ≡ before
        → ((d : DbDevice) → step.1 ≡ ok d → d.device_id ≡ id)
        → ((d : DbDevice) → step.1 ≡ ok d → g.first_device step.0 h id ≡ found d)
        → (and_next step
            (λ d. create_measurement g text h (row d) >> create_logged g h (extras d))).1
          ≡ ok tt
        → IsStored id row extras h before
            (and_next step
              (λ d. create_measurement g text h (row d) >> create_logged g h (extras d))).0
    unfolding create_measurement
    IsStored-after_device (w, err x) same named read r = cc
    IsStored-after_device (w, ok d) same named read r =
        IsStored-after_create w d (named d refl) (read d refl) same (g.create w h (row d)) refl r

  pub store_chain-IsStored :
      ((w : W) (h : H) (d : DbDevice) → (g.save_device w h d).1 ≡ ok tt)
      → (st text : String) (row : DbDevice → Row F) (extras : DbDevice → List (Row F)) (id : String)
        (payload : Payload F) (h : H) (w : W)
      → (store_chain g st text row extras id payload h w).1 ≡ ok tt
      → IsStored id row extras h (rows w h) (store_chain g st text row extras id payload h w).0
  unfolding store_chain
  store_chain-IsStored saves st text row extras id payload h w r =
      IsStored-after_device text row extras id h (rows w h) (ensure_device g st id payload h w)
        (rows-ensure_device g rows lawful st id payload h w)
        (device_id-ensure_device g rows lawful st id payload h w)
        (ensure_device_reads_back g rows lawful saves st id payload h w) r

  -- What a successful run has added to one table.
  pub entries-IsStored :
      {M : Type 0} (v : View F M) (id : String) (row : DbDevice → Row F)
      (extras : DbDevice → List (Row F)) (h : H) (before : List (Row F)) (w : W) (m : DbDevice → M)
      → ((d : DbDevice) → v.pick (row d) ≡ some (m d))
      → ((d : DbDevice) → All (λ r. v.pick r ≡ none) (extras d))
      → (s : IsStored id row extras h before w)
      → entries v (rows w h) ≡ entries v before ++ m s.device ∷ []
  entries-IsStored v id row extras h before w m picked other s =
      ap (entries v) s.added
      ∙ entries-append v (before ++ row s.device ∷ []) s.kept
      ∙ rw (entries-IsPart v s.part (other s.device)) (
          append-nil _
          ∙ entries-append v before _
          ∙ ap (λ t. entries v before ++ cons_some t []) (picked s.device))

  module _ {M : Type 0} (table : Table W H M) (v : View F M)
      (sound : IsQueryable g table v rows) where
    -- The newest of the old rows and one that is newer.
    last_of_newest :
        (h : H) (w : W) (old : List M) (m : M)
        → entries v (rows w h) ≡ old ++ m ∷ []
        → All (λ n. v.time n <ℤ v.time m) old
        → (l : Lookup M) → table.last_of w h (v.owner m) ≡ l
        → ((e : Error) → l ≢ failed e)
        → l ≡ found m
    last_of_newest h w old m e older (failed x) q reads = absurd (reads x refl)
    last_of_newest h w old m e older not_found q reads =
        absurd (sound.last_of-not_found w h (v.owner m) q m (rw e (Memᴰ-append_last m old)) refl)
    last_of_newest h w old m e older (found n) q reads =
        let (member, _, newest) = sound.last_of-found w h (v.owner m) n q in
        elim (Memᴰ-append n old (m ∷ []) (rw e at member)) [
          | inl mem ↦
              let before = All-Memᴰ (λ n. v.time n <ℤ v.time m) old older mem in
              let after = newest m (rw e (Memᴰ-append_last m old)) refl in absurd (omega arith)
          | inr (Memᴰ.head s) ↦ ap found s
          | inr (Memᴰ.tail t) ↦ elim t [ ]
        ]

    -- The conclusion of the theorems on the two handlers.
    latest-IsStored :
        (id : String) (row : DbDevice → Row F) (extras : DbDevice → List (Row F)) (h : H)
        (before : List (Row F)) (w : W) (m : DbDevice → M)
        → ((d : DbDevice) → v.pick (row d) ≡ some (m d))
        → ((d : DbDevice) → v.owner (m d) ≡ d.id)
        → ((d : DbDevice) → All (λ r. v.pick r ≡ none) (extras d))
        → ((d : DbDevice) → All (λ n. v.time n <ℤ v.time (m d)) (entries v before))
        → ((i : ℕ) (e : Error) → table.last_of w h i ≢ failed e)
        → IsStored id row extras h before w
        → (d : DbDevice) × (d.device_id ≡ id)
          × (get_latest_measurement g table id h w
              ≡ ok (some (record { measurement = m d; device = d })))
    unfolding get_latest_measurement latest_for
    latest-IsStored id row extras h before w m picked owned other older reads s =
        (s.device, s.named, rw s.read (ap (latest_row s.device) last))
      where
        table_now : entries v (rows w h) ≡ entries v before ++ m s.device ∷ []
        table_now = entries-IsStored v id row extras h before w m picked other s

        last : table.last_of w h s.device.id ≡ found (m s.device)
        last =
            sym (ap (table.last_of w h) (owned s.device))
            ∙ (last_of_newest h w (entries v before) (m s.device) table_now (older s.device) _ refl
                (reads (v.owner (m s.device))))

  -- The row of a run that has succeeded, under the conditions that its kind of table sets.
  pub latest-store_chain :
      {M : Type 0} (table : Table W H M) (v : View F M) (sound : IsQueryable g table v rows)
      (saves : (w : W) (h : H) (d : DbDevice) → (g.save_device w h d).1 ≡ ok tt) (st text : String)
      (row : DbDevice → Row F) (extras : DbDevice → List (Row F)) (m : DbDevice → M)
      → ((d : DbDevice) → v.pick (row d) ≡ some (m d))
      → ((d : DbDevice) → v.owner (m d) ≡ d.id)
      → ((d : DbDevice) → All (λ r. v.pick r ≡ none) (extras d))
      → (id : String) (payload : Payload F) (h : H) (w : W)
      → ((d : DbDevice) → All (λ n. v.time n <ℤ v.time (m d)) (entries v (rows w h)))
      → ((w₁ : W) (i : ℕ) (e : Error) → table.last_of w₁ h i ≢ failed e)
      → (store_chain g st text row extras id payload h w).1 ≡ ok tt
      → (d : DbDevice) × (d.device_id ≡ id)
        × (get_latest_measurement g table id h (store_chain g st text row extras id payload h w).0
            ≡ ok (some (record { measurement = m d; device = d })))
  latest-store_chain table v sound saves st text row extras m picked owned other id payload h w
        older reads r =
      latest-IsStored table v sound id row extras h (rows w h) _ m picked owned other older
        (reads _) (store_chain-IsStored saves st text row extras id payload h w r)
