-- ===== src/Common/Results.antt =====
-- Go's `(T, error)` results, and code that reads and changes an outside world on its way.
use Prim.Native.String.{String}
use mathlib.Core.Path.{◌≡◌, refl}
use mathlib.Core.Logic.{◌⊎◌, inl, inr}
use mathlib.Core.Bool.{Bool, true, false}

-- An `error`: `fmt.Errorf` with a text, or a text that wraps another error by `%w`.
pub data Error : Type 0 where
  errorf : String → Error
  wrapf : String → Error → Error

pub data Result {ℓ} (A : Type ℓ) : Type ℓ where
  ok : A → Result A
  err : Error → Result A

abbrev pub is_ok {ℓ} : {A : Type ℓ} → Result A → Bool
is_ok (ok a) = true
is_ok (err e) = false

-- A computation over a world of type `W`.
abbrev pub Action {ℓ} : Type 0 → Type ℓ → Type ℓ
Action W A = W → W × Result A

-- What follows a step: the rest of the code after a success, nothing after an error.
abbrev pub and_next {ℓ κ} :
    {W : Type 0} {A : Type ℓ} {B : Type κ} → W × Result A → (A → W → W × Result B) → W × Result B
and_next (w, ok a) f = f a w
and_next (w, err e) f = (w, err e)

infixl 5 ◌>>=◌ ◌>>◌
abbrev pub ◌>>=◌ {ℓ κ} :
    {W : Type 0} {A : Type ℓ} {B : Type κ}
    → (W → W × Result A)
    → (A → W → W × Result B)
    → W
    → W × Result B
◌>>=◌ m f w = and_next (m w) f

abbrev pub ◌>>◌ {ℓ} :
    {W : Type 0} {B : Type ℓ} → (W → W × Result (Unit {0})) → (W → W × Result B) → W → W × Result B
m >> k = m >>= λ _. k

-- `return nil` and `return err`.
abbrev pub return {ℓ} : {W : Type 0} {A : Type ℓ} → A → W → W × Result A
return a w = (w, ok a)

abbrev pub fail {ℓ} : {W : Type 0} {A : Type ℓ} → Error → W → W × Result A
fail e w = (w, err e)

pub Result-cases {ℓ} :
    {A : Type ℓ} (r : Result A) → ((a : A) × (r ≡ ok a)) ⊎ ((e : Error) × (r ≡ err e))
Result-cases (ok a) = inl (a, refl)
Result-cases (err e) = inr (e, refl)

-- `fmt.Errorf(text + ": %w", err)` around a failure.
abbrev pub wrapped {ℓ} : {A : Type ℓ} → String → Result A → Result A
wrapped text (ok a) = ok a
wrapped text (err e) = err (wrapf text e)

abbrev pub with_context {ℓ} : {W : Type 0} {A : Type ℓ} → String → W × Result A → W × Result A
with_context text step = (step.0, wrapped text step.1)

pub wrapped-eq-ok {ℓ} :
    {A : Type ℓ} (text : String) (r : Result A) {a : A} → wrapped text r ≡ ok a → r ≡ ok a
wrapped-eq-ok text (ok a) h = h
wrapped-eq-ok text (err e) h = cc

-- A postcondition of the value that a step returns, if it returns one.
abbrev pub Ensures {ℓ κ} : {A : Type ℓ} → (A → Type κ) → Result A → Type κ
Ensures P (ok a) = P a
Ensures P (err e) = Unit

pub Ensures-and_next {ℓ κ ι μ} :
    {W : Type 0} {A : Type ℓ} {B : Type κ} (P : A → Type ι) (Q : B → Type μ) (s : W × Result A)
    (f : A → W → W × Result B)
    → Ensures P s.1
    → ((a : A) (w : W) → P a → Ensures Q (f a w).1)
    → Ensures Q (and_next s f).1
Ensures-and_next P Q (w, ok a) f p q = q a w p
Ensures-and_next P Q (w, err e) f p q = tt

-- A first step of which nothing is known.
pub Ensures-Unit {ℓ} : {A : Type ℓ} (r : Result A) → Ensures (λ (a : A). Unit {0}) r
Ensures-Unit (ok a) = tt
Ensures-Unit (err e) = tt

-- A postcondition at the value that was returned.
pub Ensures-at {ℓ κ} :
    {A : Type ℓ} (P : A → Type κ) (r : Result A) (a : A) → Ensures P r → r ≡ ok a → P a
Ensures-at P (ok b) a p e = rw (ok_inj e) at p
  where
    ok_inj : ok b ≡ ok a → b ≡ a
    ok_inj q = cc
Ensures-at P (err x) a p e = cc

pub ok_inj {ℓ} : {A : Type ℓ} {a b : A} → ok a ≡ ok b → a ≡ b
ok_inj e = cc
