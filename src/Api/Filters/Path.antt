-- ===== src/Api/Filters/Path.antt =====
-- The device name that a path carries.
use Prim.Native.String.{String, [], ◌∷◌, ◌++◌ as ◌<>◌}
use Prim.Native.Char.{Char, code}
use text.Mathlib.TextLemmas.{nil-append, cons-append}
use mqtt_sensor_exporter.Common.{
  ◌≡◌, refl, sym, ◌∙◌, ap, ◌≢◌, Bool, true, false, not, some, ◌==◌, ◌||◌, eqb, eq_iff, arith,
}
use mqtt_sensor_exporter.Api.Text.{trim_left, keep_front, trim_right, trim_slashes, strip_prefix}
use mqtt_sensor_exporter.Api.Filters.{device_name_of_path, name_of_rest}

-- No character is a slash.
abbrev pub NoSlash : String → Type 0
NoSlash [] = Unit
NoSlash (c ∷ s) = (eqb (code c) b'/' ≡ false) × NoSlash s

trim_right_self : (s : String) → NoSlash s → trim_right (λ r. eqb r b'/') s ≡ s
unfolding trim_right
trim_right_self [] h = refl
trim_right_self (c ∷ s) h = rw (trim_right_self s h.1) (keep c s h)
  where
    keep : (c : Char) (s : String) → NoSlash (c ∷ s) → keep_front (λ r. eqb r b'/') c s ≡ c ∷ s
    keep c [] h = rw h.0
    keep c (d ∷ s) h = refl

trim_right-slash : (s : String) → NoSlash s → trim_right (λ r. eqb r b'/') (s <> "/") ≡ s
unfolding trim_right
trim_right-slash [] h = refl
trim_right-slash (c ∷ s) h = rw (cons-append c s "/") (rw (trim_right-slash s h.1) (keep c s h))
  where
    keep : (c : Char) (s : String) → NoSlash (c ∷ s) → keep_front (λ r. eqb r b'/') c s ≡ c ∷ s
    keep c [] h = rw h.0
    keep c (d ∷ s) h = refl

pub strip_prefix-append : (p s : String) → strip_prefix p (p <> s) ≡ some s
unfolding strip_prefix
strip_prefix-append [] s = rw nil-append
strip_prefix-append (c ∷ p) s = rw (cons-append c p s) (rw (strip_prefix-append p s) ground arith)

abbrev starts_plain : String → Bool
starts_plain [] = false
starts_plain (c ∷ s) = not (eqb (code c) b'/')

-- A text that starts with another character is neither empty nor a slash.
has_name :
    (c : Char) (s : String) → eqb (code c) b'/' ≡ false → ((c ∷ s) == "" || (c ∷ s) == "/") ≡ false
has_name c s h =
    let plain : starts_plain (c ∷ s) ≡ true = rw h in
    let full : (c ∷ s) ≢ "" = λ e. true≢false (sym plain ∙ ap starts_plain e) in
    let more : (c ∷ s) ≢ "/" = λ e. true≢false (sym plain ∙ ap starts_plain e) in
    ground (arith, eq_iff (c ∷ s) "", eq_iff (c ∷ s) "/")
  where
    true≢false : true ≢ false
    true≢false e = cc

module _ (c : Char) (s : String) (plain : NoSlash (c ∷ s)) where
  name_of_rest-name : name_of_rest (some (c ∷ s)) ≡ c ∷ s
  unfolding name_of_rest trim_slashes trim_left
  name_of_rest-name = rw (has_name c s plain.0) (rw plain.0 (trim_right_self (c ∷ s) plain))

  name_of_rest-slash : name_of_rest (some ((c ∷ s) <> "/")) ≡ c ∷ s
  unfolding name_of_rest trim_slashes trim_left
  name_of_rest-slash = rw (cons-append c s "/") (
      rw (has_name c (s <> "/") plain.0)
        (rw plain.0 (rw (cons-append c s "/") at (trim_right-slash (c ∷ s) plain))))

-- A name with no slash is the filter that its path gives, with a slash after it or not.
pub device_name_of_path_lem :
    (name : String)
    → NoSlash name
    → name ≢ ""
    → (device_name_of_path ("/api/v2/alerts/" <> name) ≡ name)
      × (device_name_of_path ("/api/v2/alerts/" <> (name <> "/")) ≡ name)
unfolding device_name_of_path
device_name_of_path_lem [] h n = absurd (n refl)
device_name_of_path_lem (c ∷ s) h n = (
  rw (strip_prefix-append "/api/v2/alerts/" (c ∷ s)) (name_of_rest-name c s h),
  rw (strip_prefix-append "/api/v2/alerts/" ((c ∷ s) <> "/")) (name_of_rest-slash c s h),
)
