-- ===== src/Api/Text.antt =====
-- The functions of Go's `strings` that the API calls, on texts as lists of characters.
use Prim.Native.Char.{Char, code}
use Prim.Native.String.{String, [], ◌∷◌, ◌++◌ as ◌<>◌}
use mqtt_sensor_exporter.Common.{
  ℕ, zero, suc, ◌-◌, Bool, true, false, ◌&&◌, ◌||◌, Option, none, some, eqb, leb, if◌then◌else◌,
}

-- `strings.TrimPrefix` with `strings.HasPrefix`: the rest, if the text has the prefix.
unfoldable pub strip_prefix : String → String → Option String
strip_prefix [] s = some s
strip_prefix (p ∷ ps) [] = none
strip_prefix (p ∷ ps) (c ∷ s) =
    let rest = strip_prefix ps s in if eqb (code p) (code c) then rest else none

-- `strings.TrimLeftFunc` and `strings.TrimRightFunc`, on the code of a character.
module _ (drops : ℕ → Bool) where
  unfoldable pub trim_left : String → String
  trim_left [] = []
  trim_left (c ∷ s) = let rest = trim_left s in if drops (code c) then rest else c ∷ s

  abbrev pub keep_front : Char → String → String
  keep_front c [] = if drops (code c) then [] else c ∷ []
  keep_front c (d ∷ s) = c ∷ d ∷ s

  unfoldable pub trim_right : String → String
  trim_right [] = []
  trim_right (c ∷ s) = keep_front c (trim_right s)

-- `strings.Trim(s, "/")`
unfoldable pub trim_slashes : String → String
unfolding trim_left trim_right
trim_slashes s = trim_right (λ r. eqb r b'/') (trim_left (λ r. eqb r b'/') s)

-- `unicode.IsSpace`
abbrev pub is_space : ℕ → Bool
is_space r =
    (leb 9 r && leb r 13)
    || eqb r 32
    || eqb r 0x85
    || eqb r 0xA0
    || eqb r 0x1680
    || (leb 0x2000 r && leb r 0x200A)
    || eqb r 0x2028
    || eqb r 0x2029
    || eqb r 0x202F
    || eqb r 0x205F
    || eqb r 0x3000

-- `strings.TrimSpace`
unfoldable pub trim_space : String → String
unfolding trim_left trim_right
trim_space s = trim_right is_space (trim_left is_space s)

abbrev is_some : Option String → Bool
is_some none = false
is_some (some _) = true

-- The number of characters.
abbrev pub size : String → ℕ
size [] = 0
size (c ∷ s) = suc (size s)

-- `strings.ReplaceAll` of a text that is not empty; the number counts the characters of a match
-- that are still to be skipped.
unfoldable pub replace_from : String → String → ℕ → String → String
replace_from old new skip [] = []
replace_from old new (suc skip) (c ∷ s) = replace_from old new skip s
replace_from old new zero (c ∷ s) =
    let replaced = new <> replace_from old new (size old - 1) s in
    let kept = c ∷ replace_from old new zero s in
    if is_some (strip_prefix old (c ∷ s)) then replaced else kept

unfoldable pub replace_all : String → String → String → String
unfolding replace_from strip_prefix
replace_all s old new = replace_from old new zero s

abbrev pub prepend : Char → Option String → Option String
prepend c none = none
prepend c (some s) = some (c ∷ s)

-- `strings.TrimSuffix` with `strings.HasSuffix`, for a suffix of one character.
unfoldable pub strip_last : ℕ → String → Option String
strip_last r [] = none
strip_last r (c ∷ []) = if eqb (code c) r then some [] else none
strip_last r (c ∷ d ∷ s) = prepend c (strip_last r (d ∷ s))
