-- ===== src/Database/Queries/Retention.antt =====
-- What a deletion of old measurements takes away, and what it leaves to the queries.
use mathlib.Core.List.Permᴰ
use mathlib.Core.Path.{subst}
use mathlib.Core.List.{Permᴰ}
use mqtt_sensor_exporter.Common.{
  ℕ, ◌<◌, arith, ◌≡◌, refl, ap, String, Bool, true, false, not, Option, none, some, List, [], ◌∷◌,
  map, ok, err, Result, Bool-cases, inl, inr, select, cons_if, if◌then◌else◌, ◌∙◌, wrapped-eq-ok,
  ok_inj,
}
use mqtt_sensor_exporter.Common.Order.{select-Permᴰ, select_comm}
use mqtt_sensor_exporter.Common.Int.{ℤ, pos, negsuc, ltb_ℤ, ◌+ℤ◌, ◌-ℤ◌, InInt, wrap_int_self}
use mqtt_sensor_exporter.Database.Gorm.{DbDevice, Row, Lookup, found, not_found, failed, Gorm}
use mqtt_sensor_exporter.Database.Queries.{
  Table, Measured, assign_device, cutoff_of, range_rows, range_for, get_measurements_by_time_range,
  delete_old_measurements,
}
use mqtt_sensor_exporter.Database.Queries.Tables.{
  View, cons_some, entries, in_range, is_expired, is_older, IsQueryable,
}

abbrev pub measurements : {M : Type 0} → List (Measured M) → List M
measurements xs = map (λ x. x.measurement) xs

measurements-assign_device :
    {M : Type 0} (d : DbDevice) (ms : List M) → measurements (assign_device d ms) ≡ ms
measurements-assign_device d [] = refl
measurements-assign_device d (m ∷ ms) = ap (λ t. m ∷ t) (measurements-assign_device d ms)

-- The age that a deletion is given, up to the largest `time.Duration`.
abbrev pub IsAge : ℕ → Type 0
IsAge age = age < 9223372036854775808

-- A time is before the cutoff exactly when the age after it is still before now.
ltb-cutoff_of :
    (now t : ℤ) (age : ℕ) → IsAge age → ltb_ℤ t (cutoff_of now (pos age)) ≡ ltb_ℤ (t +ℤ pos age) now
unfolding ◌+ℤ◌ ◌-ℤ◌
ltb-cutoff_of now t age bounded = rw (wrap_int_self (pos 0 -ℤ pos age) in_int) (shift now t age)
  where
    in_int : InInt (pos 0 -ℤ pos age)
    in_int = ground arith

    shift : (now t : ℤ) (age : ℕ) → ltb_ℤ t (now +ℤ (pos 0 -ℤ pos age)) ≡ ltb_ℤ (t +ℤ pos age) now
    shift (pos a) (pos b) age = ground arith
    shift (pos a) (negsuc b) age = ground arith
    shift (negsuc a) (pos b) age = ground arith
    shift (negsuc a) (negsuc b) age = ground arith

module _ {F M : Type 0} (v : View F M) (cutoff : ℤ) where
  entries-cons_if :
      (b : Bool) (r : Row F) (rs : List (Row F))
      → entries v (cons_if b r rs)
        ≡ (if b then cons_some (v.pick r) (entries v rs) else entries v rs)
  entries-cons_if true r rs = refl
  entries-cons_if false r rs = refl

  cons_some-cons_if :
      (o : Option M) (ms : List M)
      → (if not (is_older v cutoff o)
          then cons_some o (select (λ m. not (ltb_ℤ (v.time m) cutoff)) ms)
          else select (λ m. not (ltb_ℤ (v.time m) cutoff)) ms)
        ≡ select (λ m. not (ltb_ℤ (v.time m) cutoff)) (cons_some o ms)
  cons_some-cons_if none ms = refl
  cons_some-cons_if (some m) ms = elim (Bool-cases (ltb_ℤ (v.time m) cutoff)) [
    | inl e ↦ rw e
    | inr e ↦ rw e
  ]

  -- The deletion seen in the table alone.
  pub entries-select :
      (rs : List (Row F))
      → entries v (select (λ r. not (is_expired v cutoff r)) rs)
        ≡ select (λ m. not (ltb_ℤ (v.time m) cutoff)) (entries v rs)
  entries-select [] = refl
  entries-select (r ∷ rs) =
      entries-cons_if (not (is_expired v cutoff r)) r _
      ∙ rw (entries-select rs) (cons_some-cons_if (v.pick r) (entries v rs))

select-same :
    {A : Type 0} (p q : A → Bool)
    → ((a : A) → p a ≡ q a)
    → (xs : List A) → select p xs ≡ select q xs
select-same p q same [] = refl
select-same p q same (x ∷ xs) = rw (same x, select-same p q same xs)

module _ {W H F M : Type 0} (g : Gorm W H F) (table : Table W H M) (v : View F M)
    (rows : W → H → List (Row F)) (sound : IsQueryable g table v rows) where
  -- The rows that are left, and the count.
  rows-delete_old :
      (now older_than : ℤ) (h : H) (w : W) (count : ℤ)
      → (delete_old_measurements table now older_than h w).1 ≡ ok count
      → rows (delete_old_measurements table now older_than h w).0 h
        ≡ select (λ r. not (is_expired v (cutoff_of now older_than) r)) (rows w h)
  unfolding delete_old_measurements
  rows-delete_old now older_than h w count e =
      (sound.rows-delete_before w h _ count (wrapped-eq-ok _ _ e)).0

  range_of_found :
      (cutoff : ℤ) (h : H) (w w' : W) (start end : ℤ) (l : Lookup DbDevice)
      (before after : List (Measured M))
      → rows w' h ≡ select (λ r. not (is_expired v cutoff r)) (rows w h)
      → range_for g table start end h w l ≡ ok before
      → range_for g table start end h w' l ≡ ok after
      → Permᴰ
          (measurements after)
          (select (λ m. not (ltb_ℤ (v.time m) cutoff)) (measurements before))
  unfolding range_for
  range_of_found cutoff h w w' start end (failed x) before after e p q = cc
  range_of_found cutoff h w w' start end not_found before after e p q =
      rw (← ok_inj p, ← ok_inj q) Permᴰ.nil
  range_of_found cutoff h w w' start end (found d) before after e p q =
      go (table.between w h d.id start end) (table.between w' h d.id start end) refl refl p q
    where
      go :
          (a b : Result (List M))
          → table.between w h d.id start end ≡ a
          → table.between w' h d.id start end ≡ b
          → range_rows d a ≡ ok before
          → range_rows d b ≡ ok after
          → Permᴰ
              (measurements after)
              (select (λ m. not (ltb_ℤ (v.time m) cutoff)) (measurements before))
      go (err x) b _ _ p q = cc
      go (ok a) (err x) _ _ p q = cc
      go (ok a) (ok b) ea eb p q =
          let old = sound.between-ok w h d.id start end a ea in
          let new = sound.between-ok w' h d.id start end b eb in
          rw
            (← ok_inj p, ← ok_inj q, measurements-assign_device d a, measurements-assign_device d b)
            (Permᴰ.trans new (
              rw (e, entries-select v cutoff (rows w h))
                (rw (select_comm (in_range v d.id start end) _ (entries v (rows w h)))
                  (select-Permᴰ _ (Permᴰ.symm old)))))

  -- When a deletion of the measurements that are older than an age has succeeded, on a table that is
  -- queryable, and a query for a range succeeds before it and after it: what the second one returns
  -- is, up to order, what the first one returned, without the measurements from whose time to the
  -- time of the deletion more than the age has passed.
  pub get_range-delete_old :
      (now : ℤ) (age : ℕ) (h : H) (w : W) (count : ℤ)
      → IsAge age
      → (delete_old_measurements table now (pos age) h w).1 ≡ ok count
      → (device_id : String) (start end : ℤ) (before after : List (Measured M))
      → get_measurements_by_time_range g table device_id start end h w ≡ ok before
      → get_measurements_by_time_range g table device_id start end h
          (delete_old_measurements table now (pos age) h w).0
        ≡ ok after
      → Permᴰ
          (measurements after)
          (select (λ m. not (ltb_ℤ (v.time m +ℤ pos age) now)) (measurements before))
  unfolding get_measurements_by_time_range
  get_range-delete_old now age h w count bounded e device_id start end before after p q =
      let cutoff = cutoff_of now (pos age) in
      subst (λ xs. Permᴰ (measurements after) xs)
        (select-same (λ m. not (ltb_ℤ (v.time m) cutoff))
          (λ m. not (ltb_ℤ (v.time m +ℤ pos age) now))
          (λ m. ap not (ltb-cutoff_of now (v.time m) age bounded)) (measurements before))
        (range_of_found cutoff h w _ start end (g.first_device w h device_id) before after
          (rows-delete_old now (pos age) h w count e) p (rw (← same) q))
    where
      same :
          g.first_device (delete_old_measurements table now (pos age) h w).0 h device_id
          ≡ g.first_device w h device_id
      same =
          unfold delete_old_measurements in
          sound.first_device-delete_before w h (cutoff_of now (pos age)) device_id
