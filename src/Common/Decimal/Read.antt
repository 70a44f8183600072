-- ===== src/Common/Decimal/Read.antt =====
-- Reading a decimal number back, and that the fuel of the printing is enough.
use Prim.Native.Char.{Char, code}
use Prim.Native.Nat.{ℕ, zero, suc, ◌+◌, ◌*◌, ◌-◌, ◌/◌, ◌%◌, ◌<◌}
use Prim.Native.String.{String, [], ◌∷◌, ◌++◌ as ◌<>◌}
use text.Mathlib.TextLemmas.{nil-append, cons-append}
use mathlib.Core.Path.{◌≡◌, refl, ap, sym, ◌∙◌}
use mathlib.Core.Logic.{inl, inr}
use mathlib.Core.Bool.{false}
use native.Mathlib.Omega.{arith}
use mqtt_sensor_exporter.Common.Int.{ℤ, pos, negsuc}
use mqtt_sensor_exporter.Common.Tests.{ltb, eqb, if◌then◌else◌, Bool-cases}
use mqtt_sensor_exporter.Common.Decimal.{digit, decimal_fuel, decimal}

-- The number that follows `acc` when the digits of the text are appended to it.
unfoldable pub read_from : ℕ → String → ℕ
read_from acc [] = acc
read_from acc (c ∷ s) = read_from (acc * 10 + (code c - 48)) s

abbrev minus : ℕ → ℤ
minus zero = pos 0
minus (suc n) = negsuc n

-- A number with an optional sign.
unfoldable pub read_int : String → ℤ
read_int [] = pos 0
read_int (c ∷ s) =
    let rest = read_from 0 s in
    let whole = read_from 0 (c ∷ s) in if eqb (code c) 45 then minus rest else pos whole

read_from-append : (acc : ℕ) (s t : String) → read_from acc (s <> t) ≡ read_from (read_from acc s) t
unfolding read_from
read_from-append acc [] t = rw nil-append
read_from-append acc (c ∷ s) t =
    rw (cons-append c s t) (read_from-append (acc * 10 + (code c - 48)) s t)

read_from-digit : (acc r : ℕ) → r < 10 → read_from acc (digit r) ≡ acc * 10 + r
unfolding read_from
read_from-digit acc zero h = omega arith
read_from-digit acc (suc zero) h = omega arith
read_from-digit acc (suc (suc zero)) h = omega arith
read_from-digit acc (suc (suc (suc zero))) h = omega arith
read_from-digit acc (suc (suc (suc (suc zero)))) h = omega arith
read_from-digit acc (suc (suc (suc (suc (suc zero))))) h = omega arith
read_from-digit acc (suc (suc (suc (suc (suc (suc zero)))))) h = omega arith
read_from-digit acc (suc (suc (suc (suc (suc (suc (suc zero))))))) h = omega arith
read_from-digit acc (suc (suc (suc (suc (suc (suc (suc (suc zero)))))))) h = omega arith
read_from-digit acc (suc (suc (suc (suc (suc (suc (suc (suc (suc zero))))))))) h = omega arith
read_from-digit acc (suc (suc (suc (suc (suc (suc (suc (suc (suc (suc r)))))))))) h =
    absurd (omega arith)

-- With more fuel than the number, the text reads back as the number.
pub read_from-decimal_fuel : (f n : ℕ) → n < f → read_from 0 (decimal_fuel f n) ≡ n
unfolding decimal_fuel
read_from-decimal_fuel zero n h = absurd (omega arith)
read_from-decimal_fuel (suc f) n h = elim (Bool-cases (ltb n 10)) [
  | inl e ↦ rw e (read_from-digit 0 n (ground arith) ∙ omega arith)
  | inr e ↦
      let front = read_from-decimal_fuel f (n / 10) (ground arith) in
      rw e (
        read_from-append 0 (decimal_fuel f (n / 10)) (digit (n % 10))
        ∙ ap (λ a. read_from a (digit (n % 10))) front
        ∙ read_from-digit (n / 10) (n % 10) (omega arith)
        ∙ omega arith)
]

-- The text starts with a digit.
starts_plain :
    (f n : ℕ)
    → n < f
    → (c : Char) × (s : String) × (decimal_fuel f n ≡ c ∷ s) × (eqb (code c) 45 ≡ false)
unfolding decimal_fuel
starts_plain zero n h = absurd (omega arith)
starts_plain (suc f) n h = elim (Bool-cases (ltb n 10)) [
  | inl e ↦ rw e (one n (ground arith))
  | inr e ↦
      let (c, s, front, plain) = starts_plain f (n / 10) (ground arith) in
      rw e (c, s <> digit (n % 10), ap (λ t. t <> digit (n % 10)) front ∙ cons-append c s _, plain)
]
  where
    one :
        (r : ℕ) → r < 10 → (c : Char) × (s : String) × (digit r ≡ c ∷ s) × (eqb (code c) 45 ≡ false)
    one zero h = ("0", "", refl, refl)
    one (suc zero) h = ("1", "", refl, refl)
    one (suc (suc zero)) h = ("2", "", refl, refl)
    one (suc (suc (suc zero))) h = ("3", "", refl, refl)
    one (suc (suc (suc (suc zero)))) h = ("4", "", refl, refl)
    one (suc (suc (suc (suc (suc zero))))) h = ("5", "", refl, refl)
    one (suc (suc (suc (suc (suc (suc zero)))))) h = ("6", "", refl, refl)
    one (suc (suc (suc (suc (suc (suc (suc zero))))))) h = ("7", "", refl, refl)
    one (suc (suc (suc (suc (suc (suc (suc (suc zero)))))))) h = ("8", "", refl, refl)
    one (suc (suc (suc (suc (suc (suc (suc (suc (suc zero))))))))) h = ("9", "", refl, refl)
    one (suc (suc (suc (suc (suc (suc (suc (suc (suc (suc r)))))))))) h = absurd (omega arith)

read_int_plain :
    (c : Char) (s : String) → eqb (code c) 45 ≡ false → read_int (c ∷ s) ≡ pos (read_from 0 (c ∷ s))
unfolding read_int
read_int_plain c s h = rw h

read_int-minus : (s : String) → read_int ("-" <> s) ≡ minus (read_from 0 s)
read_int-minus s = ap read_int (cons-append "-" "" s ∙ ap (λ t. "-" ∷ t) (nil-append s)) ∙ signed
  where
    signed : read_int ("-" ∷ s) ≡ minus (read_from 0 s)
    signed = unfold read_int in refl

-- A printed number reads back as itself.
pub read_int-decimal : (n : ℤ) → read_int (decimal n) ≡ n
unfolding decimal
read_int-decimal (pos n) =
    let (c, s, e, plain) = starts_plain (suc n) n (omega arith) in
    ap read_int e
    ∙ read_int_plain c s plain
    ∙ ap (λ t. pos (read_from 0 t)) (sym e)
    ∙ ap pos (read_from-decimal_fuel (suc n) n (omega arith))
read_int-decimal (negsuc n) =
    read_int-minus (decimal_fuel (suc (suc n)) (suc n))
    ∙ ap minus (read_from-decimal_fuel (suc (suc n)) (suc n) (omega arith))
