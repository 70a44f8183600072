-- ===== src/Api/Duration/Units.antt =====
-- What a count of one unit is read as.
use Prim.Native.Char.{Char, code}
use Prim.Native.String.{String, [], ◌∷◌, ◌++◌ as ◌<>◌}
use text.Mathlib.TextLemmas.{nil-append, cons-append}
use mqtt_sensor_exporter.Common.{
  ℕ, ◌≡◌, refl, ◌∙◌, ap, Bool, true, false, ◌&&◌, none, some, eqb, leb, if◌then◌else◌, Result,
  arith,
}
use mqtt_sensor_exporter.Common.Int.{ℤ}
use mqtt_sensor_exporter.Api.Text.{
  trim_left, trim_right, trim_space, is_space, keep_front, replace_all, prepend, strip_last,
}
use mqtt_sensor_exporter.Api.Duration.{abbreviated, days_to_duration, parse_stem, parse_duration}

abbrev is_digit : ℕ → Bool
is_digit r = leb b'0' r && leb r b'9'

-- The text is a row of decimal digits.
abbrev pub IsDigits : String → Type 0
IsDigits [] = Unit
IsDigits (c ∷ s) = (is_digit (code c) ≡ true) × IsDigits s

abbrev NoSpace : String → Type 0
NoSpace [] = Unit
NoSpace (c ∷ s) = (is_space (code c) ≡ false) × NoSpace s

trim_left_self : (s : String) → NoSpace s → trim_left is_space s ≡ s
unfolding trim_left
trim_left_self [] h = refl
trim_left_self (c ∷ s) h = rw h.0

trim_right_self : (s : String) → NoSpace s → trim_right is_space s ≡ s
unfolding trim_right
trim_right_self [] h = refl
trim_right_self (c ∷ s) h = rw (trim_right_self s h.1) (keep c s h)
  where
    keep : (c : Char) (s : String) → NoSpace (c ∷ s) → keep_front is_space c s ≡ c ∷ s
    keep c [] h = rw h.0
    keep c (d ∷ s) h = refl

NoSpace-append : (p u : String) → IsDigits p → NoSpace u → NoSpace (p <> u)
NoSpace-append [] u h k = rw nil-append k
NoSpace-append (c ∷ p) u h k = rw cons-append (ground arith, NoSpace-append p u h.1 k)

trim_space-append : (p u : String) → IsDigits p → NoSpace u → trim_space (p <> u) ≡ p <> u
unfolding trim_space
trim_space-append p u h k =
    let n = NoSpace-append p u h k in rw (trim_left_self (p <> u) n) (trim_right_self (p <> u) n)

-- A replacement of a word that starts with no digit leaves the digits in front alone.
replace_all-append :
    (o : Char) (old new p u : String)
    → is_digit (code o) ≡ false
    → IsDigits p
    → replace_all (p <> u) (o ∷ old) new ≡ p <> replace_all u (o ∷ old) new
unfolding replace_all
replace_all-append o old new [] u n h = rw (nil-append, nil-append)
replace_all-append o old new (c ∷ p) u n h =
    let differ : eqb (code o) (code c) ≡ false = ground arith in
    rw cons-append
      (rw cons-append (rw differ (ap (λ t. c ∷ t) (replace_all-append o old new p u n h.1))))

prepend-if :
    (c : Char) (p : String) (b : Bool)
    → prepend c (if b then some p else none) ≡ (if b then some (c ∷ p) else none)
prepend-if c p true = refl
prepend-if c p false = refl

strip_last-append :
    (r : ℕ) (p : String) (d : Char)
    → strip_last r (p <> (d ∷ [])) ≡ (if eqb (code d) r then some p else none)
unfolding strip_last
strip_last-append r [] d = rw nil-append
strip_last-append r (c ∷ []) d = rw (cons-append, nil-append) (prepend-if c [] (eqb (code d) r))
strip_last-append r (c ∷ e ∷ p) d =
    rw (cons-append c (e ∷ p) (d ∷ []), cons-append e p (d ∷ []))
      (ap (prepend c) (rw (cons-append e p (d ∷ [])) at (strip_last-append r (e ∷ p) d))
        ∙ prepend-if c (e ∷ p) (eqb (code d) r))

-- The abbreviations in a unit behind a row of digits.
abbreviated-append :
    (p u : String)
    → IsDigits p
    → NoSpace u
    → abbreviated (p <> u)
      ≡ p
        <> replace_all
            (replace_all (replace_all (replace_all u "min" "m") "hour" "h") "sec" "s")
            "day"
            "h"
unfolding abbreviated
abbreviated-append p u h k = rw (trim_space-append p u h k) (
    rw (replace_all-append "m" "in" "m" p u refl h) (
      rw (replace_all-append "h" "our" "h" p (replace_all u "min" "m") refl h) (
        rw
          (replace_all-append "s" "ec" "s" p (replace_all (replace_all u "min" "m") "hour" "h") refl
            h)
          (replace_all-append "d" "ay" "h" p
            (replace_all (replace_all (replace_all u "min" "m") "hour" "h") "sec" "s") refl h))))

module _ (parse scan_int : String → Result ℤ) where
  -- A count whose unit is abbreviated to one letter.
  parse_duration_unit :
      (p u : String) (d : Char)
      → IsDigits p
      → NoSpace u
      → replace_all
          (replace_all (replace_all (replace_all u "min" "m") "hour" "h") "sec" "s")
          "day"
          "h"
        ≡ d ∷ []
      → parse_duration parse scan_int (p <> u)
        ≡ (if eqb (code d) b'd' then days_to_duration (scan_int p) else parse (p <> (d ∷ [])))
  unfolding parse_duration
  parse_duration_unit p u d h k e =
      rw (abbreviated-append p u h k, e, strip_last-append b'd' p d) (split (eqb (code d) b'd'))
    where
      split :
          (b : Bool)
          → parse_stem parse scan_int (p <> (d ∷ [])) (if b then some p else none)
            ≡ (if b then days_to_duration (scan_int p) else parse (p <> (d ∷ [])))
      split true = refl
      split false = refl

  -- A row of digits and a unit: "d" counts days of 24 hours; "min", "hour" and "sec" stand for "m",
  -- "h" and "s"; but "day" stands for "h", so a number of days is read as that number of hours.
  pub parse_duration_units :
      (p : String)
      → IsDigits p
      → (parse_duration parse scan_int (p <> "d") ≡ days_to_duration (scan_int p))
        × (parse_duration parse scan_int (p <> "min") ≡ parse (p <> "m"))
        × (parse_duration parse scan_int (p <> "hour") ≡ parse (p <> "h"))
        × (parse_duration parse scan_int (p <> "sec") ≡ parse (p <> "s"))
        × (parse_duration parse scan_int (p <> "day") ≡ parse (p <> "h"))
  unfolding replace_all
  parse_duration_units p h = (
    parse_duration_unit p "d" "d" h (refl, tt) refl,
    parse_duration_unit p "min" "m" h (refl, (refl, (refl, tt))) refl,
    parse_duration_unit p "hour" "h" h (refl, (refl, (refl, (refl, tt)))) refl,
    parse_duration_unit p "sec" "s" h (refl, (refl, (refl, tt))) refl,
    parse_duration_unit p "day" "h" h (refl, (refl, (refl, tt))) refl,
  )
