-- ===== src/Tasmota/Names/Shape.antt =====
-- The shape of a sanitized name and of a sanitized label.
use mqtt_sensor_exporter.Common.{
  ℕ, ◌≡◌, refl, ◌⊎◌, inl, inr, true, false, ◌||◌, List, [], ◌∷◌, map, eqb, if◌then◌else◌, All,
  Bool-cases, arith,
}
use mqtt_sensor_exporter.Tasmota.Names.{
  is_lower_alnum, trim_left, trim_right, hyphenate, device_stem, ensure_alnum_start, label_char,
}

-- A rune that a resource name may hold, and one that a label value may hold.
abbrev pub IsNameRune : ℕ → Type 0
IsNameRune r = (is_lower_alnum r || eqb r b'-') ≡ true

abbrev pub IsLabelRune : ℕ → Type 0
IsLabelRune r = (is_lower_alnum r || eqb r b'-' || eqb r b'_' || eqb r b'.') ≡ true

-- The first rune is a letter or a digit.
abbrev pub StartsAlnum : List ℕ → Type 0
StartsAlnum [] = ⊥
StartsAlnum (r ∷ s) = is_lower_alnum r ≡ true

-- The last rune is a letter or a digit.
abbrev pub EndsAlnum : List ℕ → Type 0
EndsAlnum [] = ⊥
EndsAlnum (r ∷ []) = is_lower_alnum r ≡ true
EndsAlnum (r ∷ x ∷ s) = EndsAlnum (x ∷ s)

map-hyphenate-IsNameRune : (s : List ℕ) → All IsNameRune (map hyphenate s)
unfolding hyphenate is_lower_alnum
map-hyphenate-IsNameRune [] = tt
map-hyphenate-IsNameRune (r ∷ s) = (ground arith, map-hyphenate-IsNameRune s)

pub map-label_char-IsLabelRune : (s : List ℕ) → All IsLabelRune (map label_char s)
unfolding label_char is_lower_alnum
map-label_char-IsLabelRune [] = tt
map-label_char-IsLabelRune (r ∷ s) = (ground arith, map-label_char-IsLabelRune s)

trim_left-All : (P : ℕ → Type 0) (s : List ℕ) → All P s → All P (trim_left s)
unfolding trim_left
trim_left-All P [] h = tt
trim_left-All P (r ∷ s) h = elim (Bool-cases (eqb r b'-')) [
  | inl e ↦ rw e (trim_left-All P s h.1)
  | inr e ↦ rw e h
]

trim_left-StartsAlnum :
    (s : List ℕ) → All IsNameRune s → (trim_left s ≡ []) ⊎ StartsAlnum (trim_left s)
unfolding trim_left
trim_left-StartsAlnum [] h = inl refl
trim_left-StartsAlnum (r ∷ s) h = elim (Bool-cases (eqb r b'-')) [
  | inl e ↦ rw e (trim_left-StartsAlnum s h.1)
  | inr e ↦ rw e (inr (ground arith))
]

-- What `trim_right` does with a rune in front of a trimmed rest.
abbrev keep_front : ℕ → List ℕ → List ℕ
keep_front r [] = if eqb r b'-' then [] else r ∷ []
keep_front r (x ∷ xs) = r ∷ x ∷ xs

trim_right-cons : (r : ℕ) (s : List ℕ) → trim_right (r ∷ s) ≡ keep_front r (trim_right s)
unfolding trim_right
trim_right-cons r s = ground arith

trim_right-All : (P : ℕ → Type 0) (s : List ℕ) → All P s → All P (trim_right s)
trim_right-All P [] h = unfold trim_right in tt
trim_right-All P (r ∷ s) h = rw trim_right-cons (go (trim_right s) (trim_right-All P s h.1))
  where
    go : (t : List ℕ) → All P t → All P (keep_front r t)
    go [] k = elim (Bool-cases (eqb r b'-')) [ inl e ↦ rw e tt | inr e ↦ rw e (h.0, tt) ]
    go (x ∷ xs) k = (h.0, k)

trim_right-EndsAlnum :
    (s : List ℕ) → All IsNameRune s → (trim_right s ≡ []) ⊎ EndsAlnum (trim_right s)
trim_right-EndsAlnum [] h = inl (unfold trim_right in refl)
trim_right-EndsAlnum (r ∷ s) h = rw trim_right-cons (go (trim_right s) (trim_right-EndsAlnum s h.1))
  where
    go : (t : List ℕ) → (t ≡ []) ⊎ EndsAlnum t → (keep_front r t ≡ []) ⊎ EndsAlnum (keep_front r t)
    go [] k = elim (Bool-cases (eqb r b'-')) [
      | inl e ↦ rw e (inl refl)
      | inr e ↦ rw e (inr (ground arith))
    ]
    go (x ∷ xs) (inl e) = cc
    go (x ∷ xs) (inr e) = inr e

trim_right-StartsAlnum : (s : List ℕ) → StartsAlnum s → StartsAlnum (trim_right s)
trim_right-StartsAlnum [] h = elim h [ ]
trim_right-StartsAlnum (r ∷ s) h = rw trim_right-cons (go (trim_right s))
  where
    alnum_ne_hyphen : (x : ℕ) → is_lower_alnum x ≡ true → eqb x b'-' ≡ false
    alnum_ne_hyphen x a = unfold is_lower_alnum in ground arith

    go : (t : List ℕ) → StartsAlnum (keep_front r t)
    go [] = rw (alnum_ne_hyphen r h) h
    go (x ∷ xs) = h

-- A stem is empty, or starts and ends with a letter or a digit.
pub record IsStem (s : List ℕ) : Type 0 where
  pub runes : All IsNameRune s
  pub ends : (s ≡ []) ⊎ (StartsAlnum s × EndsAlnum s)

pub trimmed-IsStem : (s : List ℕ) → All IsNameRune s → IsStem (trim_right (trim_left s))
trimmed-IsStem s h = record {
  runes = trim_right-All IsNameRune _ (trim_left-All IsNameRune s h);
  ends = elim (trim_left-StartsAlnum s h) [
    | inl e ↦ rw e (inl (unfold trim_right in refl))
    | inr start ↦ elim (trim_right-EndsAlnum (trim_left s) (trim_left-All IsNameRune s h)) [
      | inl e ↦ inl e
      | inr end ↦ inr (trim_right-StartsAlnum (trim_left s) start, end)
    ]
  ];
}

pub device_stem-IsStem : (lower : ℕ → ℕ) (name : List ℕ) → IsStem (device_stem lower name)
unfolding device_stem
device_stem-IsStem lower name = trimmed-IsStem _ (map-hyphenate-IsNameRune _)

-- The guard on the first rune of the stem never fires.
pub ensure_alnum_start_of_IsStem : (s : List ℕ) → IsStem s → ensure_alnum_start s ≡ s
unfolding ensure_alnum_start is_lower_alnum
ensure_alnum_start_of_IsStem [] h = refl
ensure_alnum_start_of_IsStem (r ∷ s) h = elim h.ends [ inl e ↦ cc | inr (start, _) ↦ ground arith ]
