-- ===== src/Examples/TablesInMemory.antt =====
-- Tables for the queries, over the rows of the database in memory.
use mathlib.Core.List.{Memᴰ}
use mqtt_sensor_exporter.Common.{
  ℕ, ◌≡◌, ◌≢◌, refl, ap, sym, ◌∙◌, Bool, true, false, not, List, [], ◌∷◌, Error, ok, Bool-cases,
  inl, inr, cons_if, select, length, eqb, eqb_iff, if◌then◌else◌, ok_inj, arith,
}
use mqtt_sensor_exporter.Common.Order.{same_elements}
use mqtt_sensor_exporter.Common.Int.{ℤ, pos, ltb_ℤ, ◌≤ℤ◌}
use mqtt_sensor_exporter.Database.Gorm.{Lookup, found, not_found, failed}
use mqtt_sensor_exporter.Database.Queries.{Table}
use mqtt_sensor_exporter.Database.Queries.Tables.{View, entries, in_range, is_expired, IsQueryable}
use mqtt_sensor_exporter.Examples.World.{Tables, memory, rows_of}

module _ {A : Type 0} (p : A → Bool) where
  Memᴰ-select : {x : A} (xs : List A) → Memᴰ x (select p xs) → Memᴰ x xs × (p x ≡ true)
  Memᴰ-select [] m = elim m [ ]
  Memᴰ-select {x} (y ∷ ys) m = go (p y) refl m (λ n. Memᴰ-select ys n)
    where
      go :
          (b : Bool)
          → p y ≡ b
          → Memᴰ x (cons_if b y (select p ys))
          → (Memᴰ x (select p ys) → Memᴰ x ys × (p x ≡ true))
          → Memᴰ x (y ∷ ys) × (p x ≡ true)
      go true e (Memᴰ.head q) rec = (Memᴰ.head q, ap p q ∙ e)
      go true e (Memᴰ.tail n) rec = let (mem, t) = rec n in (Memᴰ.tail mem, t)
      go false e n rec = let (mem, t) = rec n in (Memᴰ.tail mem, t)

  select-Memᴰ : {x : A} (xs : List A) → p x ≡ true → Memᴰ x xs → Memᴰ x (select p xs)
  select-Memᴰ [] e m = elim m [ ]
  select-Memᴰ (y ∷ ys) e (Memᴰ.head q) = rw (sym (ap p q) ∙ e) (Memᴰ.head q)
  select-Memᴰ {x} (y ∷ ys) e (Memᴰ.tail m) = elim (Bool-cases (p y)) [
    | inl t ↦ rw t (Memᴰ.tail (select-Memᴰ ys e m))
    | inr f ↦ rw f (select-Memᴰ ys e m)
  ]

module _ {M : Type 0} (time : M → ℤ) where
  -- The first of the newest.
  abbrev newest_from : M → List M → M
  newest_from k [] = k
  newest_from k (m ∷ ms) = newest_from (if ltb_ℤ (time k) (time m) then m else k) ms

  newest_from-IsNewest :
      (k : M) (ms : List M)
      → Memᴰ (newest_from k ms) (k ∷ ms)
        × ((n : M) → Memᴰ n (k ∷ ms) → time n ≤ℤ time (newest_from k ms))
  newest_from-IsNewest k [] = (Memᴰ.head refl, only)
    where
      only : (n : M) → Memᴰ n (k ∷ []) → time n ≤ℤ time k
      only n (Memᴰ.head e) = rw e (omega arith)
      only n (Memᴰ.tail m) = elim m [ ]
  newest_from-IsNewest k (m ∷ ms) = elim (Bool-cases (ltb_ℤ (time k) (time m))) [
    | inl e ↦ let (mem, top) = newest_from-IsNewest m ms in rw e (Memᴰ.tail mem, later e top)
    | inr e ↦ let (mem, top) = newest_from-IsNewest k ms in rw e (skipped mem, earlier e top)
  ]
    where
      later :
          ltb_ℤ (time k) (time m) ≡ true
          → ((n : M) → Memᴰ n (m ∷ ms) → time n ≤ℤ time (newest_from m ms))
          → (n : M) → Memᴰ n (k ∷ m ∷ ms)
          → time n ≤ℤ time (newest_from m ms)
      later e top n (Memᴰ.head q) = let first = top m (Memᴰ.head refl) in rw q (ground arith)
      later e top n (Memᴰ.tail r) = top n r

      skipped : {x : M} → Memᴰ x (k ∷ ms) → Memᴰ x (k ∷ m ∷ ms)
      skipped (Memᴰ.head q) = Memᴰ.head q
      skipped (Memᴰ.tail r) = Memᴰ.tail (Memᴰ.tail r)

      earlier :
          ltb_ℤ (time k) (time m) ≡ false
          → ((n : M) → Memᴰ n (k ∷ ms) → time n ≤ℤ time (newest_from k ms))
          → (n : M) → Memᴰ n (k ∷ m ∷ ms)
          → time n ≤ℤ time (newest_from k ms)
      earlier e top n (Memᴰ.head q) = top n (Memᴰ.head q)
      earlier e top n (Memᴰ.tail (Memᴰ.head q)) =
          let first = top k (Memᴰ.head refl) in rw q (ground arith)
      earlier e top n (Memᴰ.tail (Memᴰ.tail r)) = top n (Memᴰ.tail r)

module _ {M : Type 0} (v : View ℤ M) where
  abbrev newest : List M → Lookup M
  newest [] = not_found
  newest (m ∷ ms) = found (newest_from v.time m ms)

  abbrev pub table_of : Table Tables (Unit {0}) M
  table_of = record {
    last_of = λ w h i. newest (select (λ m. eqb (v.owner m) i) (entries v w.rows));
    between = λ w h i start end. ok (select (in_range v i start end) (entries v w.rows));
    delete_before = λ w h cutoff. (
      record w { rows = select (λ r. not (is_expired v cutoff r)) w.rows },
      ok (pos (length (select (is_expired v cutoff) w.rows))),
    );
  }

  found_newest :
      (ms : List M) (m : M)
      → newest ms ≡ found m
      → Memᴰ m ms × ((n : M) → Memᴰ n ms → v.time n ≤ℤ v.time m)
  found_newest [] m e = cc
  found_newest (k ∷ ms) m e =
      let same : newest_from v.time k ms ≡ m = cc in rw (← same) (newest_from-IsNewest v.time k ms)

  pub table_of-IsQueryable : IsQueryable memory table_of v rows_of
  table_of-IsQueryable = record {
    last_of-found = λ w h i m e. latest i (entries v w.rows) m e;
    last_of-not_found = λ w h i e m mem own. missing i (entries v w.rows) e m mem own;
    between-ok = λ w h i start end ms e. rw (ok_inj e) (same_elements ms);
    rows-delete_before = λ w h cutoff count e. (refl, sym (ok_inj e));
    rows-delete_before_err = λ w h cutoff x e. cc e;
    first_device-delete_before = λ w h cutoff id. refl;
  }
    where
      latest :
          (i : ℕ) (ms : List M) (m : M)
          → newest (select (λ m. eqb (v.owner m) i) ms) ≡ found m
          → Memᴰ m ms
            × (v.owner m ≡ i)
            × ((n : M) → Memᴰ n ms → v.owner n ≡ i → v.time n ≤ℤ v.time m)
      latest i ms m e =
          let (mem, top) = found_newest (select (λ n. eqb (v.owner n) i) ms) m e in
          let (old, own) = Memᴰ-select (λ n. eqb (v.owner n) i) ms mem in
          (
            old,
            (eqb_iff (v.owner m) i).0 own,
            λ n r o.
                top n (select-Memᴰ (λ n. eqb (v.owner n) i) ms ((eqb_iff (v.owner n) i).1 o) r),
          )

      nothing : (ms : List M) (m : M) → newest ms ≡ not_found → Memᴰ m ms → ⊥
      nothing [] m e mem = elim mem [ ]
      nothing (k ∷ ms) m e mem = cc

      missing :
          (i : ℕ) (ms : List M)
          → newest (select (λ m. eqb (v.owner m) i) ms) ≡ not_found
          → (m : M) → Memᴰ m ms
          → v.owner m ≢ i
      missing i ms e m mem own =
          nothing _ m e
            (select-Memᴰ (λ n. eqb (v.owner n) i) ms ((eqb_iff (v.owner m) i).1 own) mem)

  newest-ne-failed : (ms : List M) (e : Error) → newest ms ≢ failed e
  newest-ne-failed [] e p = cc
  newest-ne-failed (m ∷ ms) e p = cc

  pub last_of-ne-failed :
      (w : Tables) (i : ℕ) (e : Error) → Table.last_of table_of w tt i ≢ failed e
  last_of-ne-failed w i e = newest-ne-failed _ e
