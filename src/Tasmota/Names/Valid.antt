-- ===== src/Tasmota/Names/Valid.antt =====
-- What `sanitizeDeviceName` and `sanitizeLabel` guarantee of every input.
use mqtt_sensor_exporter.Common.{
  ℕ, ◌≤◌, ◌≡◌, ap, ◌∙◌, ◌≢◌, inl, inr, true, false, none, some, List, [], ◌∷◌, ◌++◌, map, ltb, eqb,
  eqb_iff, length, length-take, All, All-take, Bool-cases, Option-cases, arith,
}
use mqtt_sensor_exporter.Tasmota.Names.{
  device_prefix, hex_prefix, has_prefix, strip_prefix, trim_prefix, to_lower, device_stem,
  ensure_device_prefix, sanitize_device_name, label_char, sanitize_label, max_name, max_label,
  limit,
}
use mqtt_sensor_exporter.Tasmota.Names.Shape.{
  IsNameRune, IsLabelRune, EndsAlnum, IsStem, device_stem-IsStem, ensure_alnum_start_of_IsStem,
  map-label_char-IsLabelRune,
}

length-limit : (n : ℕ) (s : List ℕ) → length (limit n s) ≤ n
length-limit n s = elim (Bool-cases (ltb n (length s))) [
  | inl long ↦ rw long (omega (arith, length-take n s))
  | inr short ↦ rw short (ground arith)
]

All-limit : (P : ℕ → Type 0) (n : ℕ) (s : List ℕ) → All P s → All P (limit n s)
All-limit P n s h = elim (Bool-cases (ltb n (length s))) [
  | inl long ↦ rw long (All-take P n s h)
  | inr short ↦ rw short h
]

pub limit_self : (n : ℕ) (s : List ℕ) → length s ≤ n → limit n s ≡ s
limit_self n s h = let short : ltb n (length s) ≡ false = ground arith in rw short

-- A list that has the prefix is the prefix and a rest.
strip_prefix-append : (p s rest : List ℕ) → strip_prefix p s ≡ some rest → s ≡ p ++ rest
strip_prefix-append [] s rest h = ground arith
strip_prefix-append (p ∷ ps) [] rest h = cc
strip_prefix-append (p ∷ ps) (r ∷ s) rest h = elim (Bool-cases (eqb p r)) [
  | inl e ↦ cc ((eqb_iff p r).0 e, strip_prefix-append ps s rest (rw e at h))
  | inr e ↦ absurd (never (rw e at h))
]
  where
    never : none ≡ some rest → ⊥
    never q = cc

-- The prefixed name, before it is cut: the prefix, and a rest of name runes.
pub prefixed :
    (s : List ℕ)
    → All IsNameRune s
    → (rest : List ℕ) × (ensure_device_prefix s ≡ device_prefix ++ rest) × All IsNameRune rest
unfolding ensure_device_prefix
prefixed s h = elim (Option-cases (strip_prefix device_prefix s)) [
  | inl e ↦ (s, rw e, h)
  | inr (rest, e) ↦ (
    rest,
    rw e (strip_prefix-append device_prefix s rest e),
    go rest (rw (strip_prefix-append device_prefix s rest e) at h),
  )
]
  where
    go : (rest : List ℕ) → All IsNameRune (device_prefix ++ rest) → All IsNameRune rest
    go rest k = k.1.1.1.1.1.1.1

EndsAlnum-append : (p s : List ℕ) → EndsAlnum s → EndsAlnum (p ++ s)
EndsAlnum-append [] s h = h
EndsAlnum-append (r ∷ []) [] h = elim h [ ]
EndsAlnum-append (r ∷ []) (x ∷ s) h = h
EndsAlnum-append (r ∷ q ∷ p) s h = EndsAlnum-append (q ∷ p) s h

pub ensure_device_prefix-EndsAlnum : (s : List ℕ) → EndsAlnum s → EndsAlnum (ensure_device_prefix s)
unfolding ensure_device_prefix
ensure_device_prefix-EndsAlnum s h = elim (Bool-cases (has_prefix device_prefix s)) [
  | inl e ↦ rw e h
  | inr e ↦ rw e (EndsAlnum-append device_prefix s h)
]

module _ (lower : ℕ → ℕ) (name : List ℕ) where
  pub sanitize_device_name-stem :
      sanitize_device_name lower name
      ≡ limit max_name (ensure_device_prefix (device_stem lower name))
  unfolding sanitize_device_name
  sanitize_device_name-stem = rw (ensure_alnum_start_of_IsStem _ (device_stem-IsStem lower name))

  -- Whatever the name, the result is "device-" and a rest of at most 246 runes, each a lower-case
  -- letter, a digit or a hyphen.
  pub sanitize_device_name-shape :
      (rest : List ℕ) × (sanitize_device_name lower name ≡ device_prefix ++ rest)
      × (length rest ≤ 246)
      × All IsNameRune rest
  sanitize_device_name-shape =
      let (rest, e, runes) =
        prefixed (device_stem lower name) (device_stem-IsStem lower name).runes in
      (
        limit 246 rest,
        sanitize_device_name-stem ∙ ap (limit max_name) e ∙ limit-prefix rest,
        length-limit 246 rest,
        All-limit IsNameRune 246 rest runes,
      )
    where
      limit-prefix :
          (rest : List ℕ) → limit max_name (device_prefix ++ rest) ≡ device_prefix ++ limit 246 rest
      limit-prefix rest = elim (Bool-cases (ltb 246 (length rest))) [
        | inl long ↦
            let longer : ltb 253 (length (device_prefix ++ rest)) ≡ true = ground arith in
            rw (longer, long)
        | inr short ↦
            let shorter : ltb 253 (length (device_prefix ++ rest)) ≡ false = ground arith in
            rw (shorter, short)
      ]

  -- A name with a letter or a digit left after trimming, whose prefixed form is not cut, ends with
  -- a letter or a digit.
  pub sanitize_device_name-EndsAlnum :
      device_stem lower name ≢ []
      → length (ensure_device_prefix (device_stem lower name)) ≤ max_name
      → EndsAlnum (sanitize_device_name lower name)
  sanitize_device_name-EndsAlnum full fits =
      rw (sanitize_device_name-stem, limit_self _ _ fits)
        (ensure_device_prefix-EndsAlnum _ (go (device_stem-IsStem lower name)))
    where
      go : IsStem (device_stem lower name) → EndsAlnum (device_stem lower name)
      go h = elim h.ends [ inl e ↦ absurd (full e) | inr both ↦ both.1 ]

  -- A label has at most 63 runes, each of those that a label value may hold.
  pub sanitize_label-shape :
      (length (sanitize_label lower name) ≤ max_label) × All IsLabelRune (sanitize_label lower name)
  unfolding sanitize_label
  sanitize_label-shape = cut (trim_prefix hex_prefix (map (to_lower lower) name))
    where
      cut :
          (s : List ℕ)
          → (length (limit max_label (map label_char s)) ≤ max_label)
            × All IsLabelRune (limit max_label (map label_char s))
      cut s = (
        length-limit max_label (map label_char s),
        All-limit IsLabelRune max_label (map label_char s) (map-label_char-IsLabelRune s),
      )
