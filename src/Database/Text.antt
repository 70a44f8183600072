-- ===== src/Database/Text.antt =====
-- internal/database/utils.go: `sanitizeString`.
use Prim.Native.Char.{code}
use Prim.Native.String.{String}
use mqtt_sensor_exporter.Common.{
  ℕ, ◌≡◌, refl, ap, Bool, false, ◌||◌, ltb, eqb, if◌then◌else◌, Bool-cases, inl, inr,
}

unfoldable pub is_control : ℕ → Bool
is_control r = ltb r 0x20 || eqb r 0x7F

-- `strings.Map` drops a rune that is mapped to -1.
unfoldable pub sanitize_string : String → String
sanitize_string String.[] = String.[]
sanitize_string (String.◌∷◌ c s) =
    let rest = sanitize_string s in if is_control (code c) then rest else String.◌∷◌ c rest

-- No rune of the text is a control character.
abbrev pub IsClean : String → Type 0
IsClean String.[] = Unit
IsClean (String.◌∷◌ c s) = (is_control (code c) ≡ false) × IsClean s

-- A sanitized text holds no control character.
pub sanitize_string-IsClean : (s : String) → IsClean (sanitize_string s)
unfolding sanitize_string
sanitize_string-IsClean String.[] = tt
sanitize_string-IsClean (String.◌∷◌ c s) = elim (Bool-cases (is_control (code c))) [
  | inl e ↦ rw e (sanitize_string-IsClean s)
  | inr e ↦ rw e (e, sanitize_string-IsClean s)
]

pub sanitize_string_of_IsClean : (s : String) → IsClean s → sanitize_string s ≡ s
unfolding sanitize_string
sanitize_string_of_IsClean String.[] h = refl
sanitize_string_of_IsClean (String.◌∷◌ c s) h =
    rw h.0 (ap (String.◌∷◌ c) (sanitize_string_of_IsClean s h.1))

-- A text that sanitizing leaves alone is clean.
pub sanitize_string_fixed : (s : String) → sanitize_string s ≡ s → IsClean s
sanitize_string_fixed s e = rw e at (sanitize_string-IsClean s)
