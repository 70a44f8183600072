-- ===== src/Tasmota/Names/Again.antt =====
-- Sanitizing a name a second time, and names that hold no letter and no digit.
use mqtt_sensor_exporter.Common.{
  ℕ, ◌≤◌, ◌≡◌, refl, ◌∙◌, ◌≢◌, false, List, [], ◌∷◌, ◌++◌, map, eqb, length, All, arith,
}
use mqtt_sensor_exporter.Tasmota.Names.{
  device_prefix, hex_prefix, is_lower_alnum, trim_prefix, trim_left, trim_right, hyphenate,
  to_lower, device_stem, ensure_device_prefix, sanitize_device_name, max_name,
}
use mqtt_sensor_exporter.Tasmota.Names.Shape.{IsNameRune, EndsAlnum, device_stem-IsStem}
use mqtt_sensor_exporter.Tasmota.Names.Valid.{
  limit_self, prefixed, sanitize_device_name-stem, sanitize_device_name-EndsAlnum,
}

trim_right_self : (s : List ℕ) → EndsAlnum s → trim_right s ≡ s
unfolding trim_right is_lower_alnum
trim_right_self [] h = refl
trim_right_self (r ∷ []) h = ground arith
trim_right_self (r ∷ x ∷ s) h = rw (trim_right_self (x ∷ s) h)

module _ (lower : ℕ → ℕ) where
  map-to_lower_self : (s : List ℕ) → All IsNameRune s → map (to_lower lower) s ≡ s
  unfolding to_lower is_lower_alnum
  map-to_lower_self [] h = refl
  map-to_lower_self (r ∷ s) h = ground (arith, map-to_lower_self s)

map-hyphenate_self : (s : List ℕ) → All IsNameRune s → map hyphenate s ≡ s
unfolding hyphenate
map-hyphenate_self [] h = refl
map-hyphenate_self (r ∷ s) h = ground (arith, map-hyphenate_self s)

-- Sanitizing changes no name that is already the prefix and a rest that ends well.
sanitize_prefixed :
    (lower : ℕ → ℕ) (rest : List ℕ)
    → All IsNameRune rest
    → EndsAlnum (device_prefix ++ rest)
    → device_stem lower (device_prefix ++ rest) ≡ device_prefix ++ rest
unfolding device_stem is_lower_alnum
sanitize_prefixed lower rest runes end = rw (map-to_lower_self lower (device_prefix ++ rest) all) (
    rw (map-hyphenate_self (device_prefix ++ rest) all)
      (unfold trim_left in trim_right_self (device_prefix ++ rest) end))
  where
    all : All IsNameRune (device_prefix ++ rest)
    all = (refl, (refl, (refl, (refl, (refl, (refl, (refl, runes)))))))

ensure_device_prefix_self :
    (rest : List ℕ) → ensure_device_prefix (device_prefix ++ rest) ≡ device_prefix ++ rest
unfolding ensure_device_prefix
ensure_device_prefix_self rest = refl

-- A name whose stem is not empty and whose prefixed form is not cut is sanitized once and for all:
-- a second sanitization changes nothing.
pub sanitize_device_name_idempotent :
    (lower : ℕ → ℕ) (name : List ℕ)
    → device_stem lower name ≢ []
    → length (ensure_device_prefix (device_stem lower name)) ≤ max_name
    → sanitize_device_name lower (sanitize_device_name lower name) ≡ sanitize_device_name lower name
sanitize_device_name_idempotent lower name full fits =
    let (rest, e, runes) =
      prefixed (device_stem lower name) (device_stem-IsStem lower name).runes in
    let once : sanitize_device_name lower name ≡ device_prefix ++ rest =
      sanitize_device_name-stem lower name ∙ limit_self max_name _ fits ∙ e in
    let end : EndsAlnum (device_prefix ++ rest) =
      rw once at (sanitize_device_name-EndsAlnum lower name full fits) in
    let stem = sanitize_prefixed lower rest runes end in
    let short : length (device_prefix ++ rest) ≤ max_name = rw e at fits in
    rw once (
      sanitize_device_name-stem lower (device_prefix ++ rest)
      ∙ rw (stem, ensure_device_prefix_self rest)
          (limit_self max_name (device_prefix ++ rest) short))

trim_prefix-ne : (r : ℕ) (s : List ℕ) → eqb b'0' r ≡ false → trim_prefix hex_prefix (r ∷ s) ≡ r ∷ s
trim_prefix-ne r s h = ground arith

module _ (lower : ℕ → ℕ) where
  -- No rune of the name is a letter or a digit, also when it is set in lower case.
  abbrev pub HasNoAlnum : List ℕ → Type 0
  HasNoAlnum = All (λ r. is_lower_alnum (to_lower lower r) ≡ false)

  -- "0x" is no prefix of such a name.
  trim_prefix-HasNoAlnum :
      (name : List ℕ)
      → HasNoAlnum name
      → trim_prefix hex_prefix (map (to_lower lower) name) ≡ map (to_lower lower) name
  unfolding is_lower_alnum
  trim_prefix-HasNoAlnum [] h = refl
  trim_prefix-HasNoAlnum (r ∷ s) h =
      trim_prefix-ne (to_lower lower r) (map (to_lower lower) s) (ground arith)

  trim_left-HasNoAlnum :
      (name : List ℕ) → HasNoAlnum name → trim_left (map hyphenate (map (to_lower lower) name)) ≡ []
  unfolding trim_left hyphenate
  trim_left-HasNoAlnum [] h = refl
  trim_left-HasNoAlnum (r ∷ s) h = rw h.0 (trim_left-HasNoAlnum s h.1)

  -- Every name without a letter or a digit becomes "device-", which ends with a hyphen: no valid
  -- name of a resource.
  pub sanitize_device_name_of_HasNoAlnum :
      (name : List ℕ)
      → HasNoAlnum name
      → (sanitize_device_name lower name ≡ device_prefix)
        × ¬ EndsAlnum (sanitize_device_name lower name)
  unfolding is_lower_alnum
  sanitize_device_name_of_HasNoAlnum name h = (same, λ end. cc (rw same at end))
    where
      empty : device_stem lower name ≡ []
      empty =
          unfold device_stem in
          rw (trim_prefix-HasNoAlnum name h, trim_left-HasNoAlnum name h)
            (unfold trim_right in refl)

      same : sanitize_device_name lower name ≡ device_prefix
      same = rw (sanitize_device_name-stem lower name, empty) (unfold ensure_device_prefix in refl)
