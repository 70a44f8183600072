-- ===== src/Tasmota/Names.antt =====
-- internal/tasmota/utils.go: `sanitizeDeviceName` and `sanitizeLabel`. A Go string is the list of
-- its runes, as `range` and `strings.Map` read them. After the maps every rune is one byte, so
-- `len` and a slice count runes. Above ASCII `unicode.ToLower` is a parameter.
pub mod Shape
pub mod Valid
pub mod Again
use mqtt_sensor_exporter.Common.{
  ℕ, ◌+◌, Bool, true, false, not, ◌&&◌, ◌||◌, Option, none, some, List, [], ◌∷◌, ◌++◌, map, ltb,
  leb, eqb, if◌then◌else◌, length, take,
}

abbrev hyphen : ℕ
hyphen = b'-'

-- "0x"
abbrev pub hex_prefix : List ℕ
hex_prefix = b'0' ∷ b'x' ∷ []

-- "device-"
abbrev pub device_prefix : List ℕ
device_prefix = b'd' ∷ b'e' ∷ b'v' ∷ b'i' ∷ b'c' ∷ b'e' ∷ b'-' ∷ []

unfoldable pub is_lower_alnum : ℕ → Bool
is_lower_alnum r = (leb b'a' r && leb r b'z') || (leb b'0' r && leb r b'9')

-- `strings.TrimPrefix` and `strings.HasPrefix`.
abbrev pub strip_prefix : List ℕ → List ℕ → Option (List ℕ)
strip_prefix [] s = some s
strip_prefix (p ∷ ps) [] = none
strip_prefix (p ∷ ps) (r ∷ s) = let rest = strip_prefix ps s in if eqb p r then rest else none

abbrev pub trim_prefix : List ℕ → List ℕ → List ℕ
trim_prefix p s = elim (strip_prefix p s) [ none ↦ s | some rest ↦ rest ]

abbrev pub has_prefix : List ℕ → List ℕ → Bool
has_prefix p s = elim (strip_prefix p s) [ none ↦ false | some _ ↦ true ]

-- `strings.Trim(s, "-")`.
unfoldable pub trim_left : List ℕ → List ℕ
trim_left [] = []
trim_left (r ∷ s) = let rest = trim_left s in if eqb r hyphen then rest else r ∷ s

unfoldable pub trim_right : List ℕ → List ℕ
trim_right [] = []
trim_right (r ∷ s) = elim (trim_right s) [
  | [] ↦ if eqb r hyphen then [] else r ∷ []
  | x ∷ xs ↦ r ∷ x ∷ xs
]

unfoldable pub hyphenate : ℕ → ℕ
hyphenate r = if is_lower_alnum r then r else hyphen

unfoldable pub ensure_alnum_start : List ℕ → List ℕ
ensure_alnum_start [] = []
ensure_alnum_start (r ∷ s) =
    if (ltb r b'a' || ltb b'z' r) && (ltb r b'0' || ltb b'9' r)
    then device_prefix ++ r ∷ s
    else r ∷ s

unfoldable pub ensure_device_prefix : List ℕ → List ℕ
ensure_device_prefix s = if not (has_prefix device_prefix s) then device_prefix ++ s else s

unfoldable pub label_char : ℕ → ℕ
label_char r = if is_lower_alnum r || eqb r b'-' || eqb r b'_' || eqb r b'.' then r else hyphen

abbrev pub max_name : ℕ
max_name = 253

abbrev pub max_label : ℕ
max_label = 63

-- `name[:n]` where the name is longer.
abbrev pub limit : ℕ → List ℕ → List ℕ
limit n s = if ltb n (length s) then take n s else s

module _ (unicode_lower : ℕ → ℕ) where
  unfoldable pub to_lower : ℕ → ℕ
  to_lower r = if ltb r 128 then if leb b'A' r && leb r b'Z' then r + 32 else r else unicode_lower r

  -- The name before the prefix is put in front of it.
  unfoldable pub device_stem : List ℕ → List ℕ
  device_stem name =
      trim_right (trim_left (map hyphenate (trim_prefix hex_prefix (map to_lower name))))

  unfoldable pub sanitize_device_name : List ℕ → List ℕ
  sanitize_device_name name =
      limit max_name (ensure_device_prefix (ensure_alnum_start (device_stem name)))

  unfoldable pub sanitize_label : List ℕ → List ℕ
  sanitize_label value =
      limit max_label (map label_char (trim_prefix hex_prefix (map to_lower value)))
