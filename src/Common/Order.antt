-- ===== src/Common/Order.antt =====
-- Lists visited in another order: what holds of all elements, and of some, is the same.
use Prim.Native.Nat.{suc}
use mathlib.Core.Path.{◌≡◌, refl, ◌∙◌, ap}
use mathlib.Core.Logic.{inl, inr}
use mathlib.Core.Bool.{Bool, true, false}
use mathlib.Core.Option.{none, some}
use mathlib.Core.List.{List, [], ◌∷◌, Memᴰ, Permᴰ}
use native.Mathlib.Omega.{arith}
use mqtt_sensor_exporter.Common.Tests.{Bool-cases}
use mqtt_sensor_exporter.Common.Lists.{All, any, find, cons_if, select, length}

-- A choice of the order in which a map's entries are visited.
abbrev pub IsOrder {ℓ} : {A : Type ℓ} → (List A → List A) → Type ℓ
IsOrder {A} visit = (xs : List A) → Permᴰ (visit xs) xs

module _ {ℓ} {A : Type ℓ} where
  pub any-Permᴰ : (p : A → Bool) {xs ys : List A} → Permᴰ xs ys → any p xs ≡ any p ys
  any-Permᴰ p Permᴰ.nil = refl
  any-Permᴰ p (Permᴰ.cons e s) = cc (ap p e, any-Permᴰ p s)
  any-Permᴰ p (Permᴰ.swap {a} {b} {a'} {b'} e f) =
      let e' : p a ≡ p b' = ap p e in let f' : p b ≡ p a' = ap p f in ground arith
  any-Permᴰ p (Permᴰ.trans s t) = any-Permᴰ p s ∙ any-Permᴰ p t

  pub any-Memᴰ : (p : A → Bool) {x : A} {xs : List A} → Memᴰ x xs → p x ≡ true → any p xs ≡ true
  any-Memᴰ p (Memᴰ.head q) e = let e' = ap p q in ground arith
  any-Memᴰ p (Memᴰ.tail m) e = let rest = any-Memᴰ p m e in ground arith

  pub Memᴰ-Permᴰ : {x : A} {xs ys : List A} → Permᴰ xs ys → Memᴰ x xs → Memᴰ x ys
  Memᴰ-Permᴰ Permᴰ.nil m = m
  Memᴰ-Permᴰ (Permᴰ.cons e s) (Memᴰ.head q) = Memᴰ.head (q ∙ e)
  Memᴰ-Permᴰ (Permᴰ.cons e s) (Memᴰ.tail m) = Memᴰ.tail (Memᴰ-Permᴰ s m)
  Memᴰ-Permᴰ (Permᴰ.swap e f) (Memᴰ.head q) = Memᴰ.tail (Memᴰ.head (q ∙ e))
  Memᴰ-Permᴰ (Permᴰ.swap e f) (Memᴰ.tail (Memᴰ.head q)) = Memᴰ.head (q ∙ f)
  Memᴰ-Permᴰ (Permᴰ.swap e f) (Memᴰ.tail (Memᴰ.tail m)) = Memᴰ.tail (Memᴰ.tail m)
  Memᴰ-Permᴰ (Permᴰ.trans s t) m = Memᴰ-Permᴰ t (Memᴰ-Permᴰ s m)

  -- An element that may have been put in front.
  pub All-cons_if {κ} :
      (P : A → Type κ) (b : Bool) (x : A) (xs : List A)
      → (b ≡ true → P x)
      → All P xs
      → All P (cons_if b x xs)
  All-cons_if P true x xs first rest = (first refl, rest)
  All-cons_if P false x xs first rest = rest

  pub any-cons_if :
      (p : A → Bool) (b : Bool) (x : A) (xs : List A)
      → any p xs ≡ true
      → any p (cons_if b x xs) ≡ true
  any-cons_if p true x xs h = ground arith
  any-cons_if p false x xs h = h

  pub any-first :
      (p : A → Bool) (b : Bool) (x : A) (xs : List A)
      → b ≡ true
      → p x ≡ true
      → any p (cons_if b x xs) ≡ true
  any-first p true x xs e h = ground arith
  any-first p false x xs e h = cc

  pub length-Permᴰ : {xs ys : List A} → Permᴰ xs ys → length xs ≡ length ys
  length-Permᴰ Permᴰ.nil = refl
  length-Permᴰ (Permᴰ.cons e s) = ap suc (length-Permᴰ s)
  length-Permᴰ (Permᴰ.swap e f) = refl
  length-Permᴰ (Permᴰ.trans s t) = length-Permᴰ s ∙ length-Permᴰ t

  -- There is one order of a single element.
  pub Permᴰ-single : (x : A) (xs : List A) → Permᴰ xs (x ∷ []) → xs ≡ x ∷ []
  Permᴰ-single x [] s = let e = length-Permᴰ s in absurd (omega arith)
  Permᴰ-single x (y ∷ []) s = elim (Memᴰ-Permᴰ s (Memᴰ.head refl)) [
    | Memᴰ.head e ↦ rw e
    | Memᴰ.tail m ↦ elim m [ ]
  ]
  Permᴰ-single x (y ∷ z ∷ ys) s = let e = length-Permᴰ s in absurd (omega arith)

  pub All-Memᴰ {κ} : (P : A → Type κ) {x : A} (xs : List A) → All P xs → Memᴰ x xs → P x
  All-Memᴰ P [] h m = elim m [ ]
  All-Memᴰ P (y ∷ ys) h (Memᴰ.head q) = rw q h.0
  All-Memᴰ P (y ∷ ys) h (Memᴰ.tail m) = All-Memᴰ P ys h.1 m

  pub find-eq-none : (p : A → Bool) (xs : List A) → find p xs ≡ none → any p xs ≡ false
  find-eq-none p [] h = refl
  find-eq-none p (x ∷ xs) h = ground (arith, find-eq-none p xs)

  pub find-eq-some :
      (p : A → Bool) (xs : List A) (x : A) → find p xs ≡ some x → Memᴰ x xs × (p x ≡ true)
  find-eq-some p [] x h = cc
  find-eq-some p (y ∷ ys) x h = elim (Bool-cases (p y)) [
    | inl e ↦ let same : x ≡ y = ground arith in (Memᴰ.head same, ap p same ∙ e)
    | inr e ↦ let (m, q) = find-eq-some p ys x (ground arith) in (Memᴰ.tail m, q)
  ]

  pub find-head : (p : A → Bool) (x : A) (xs : List A) → p x ≡ true → find p (x ∷ xs) ≡ some x
  find-head p x xs e = rw (e, find)

  cons_if-Permᴰ :
      (b : Bool) (x : A) {xs ys : List A} → Permᴰ xs ys → Permᴰ (cons_if b x xs) (cons_if b x ys)
  cons_if-Permᴰ true x s = Permᴰ.cons refl s
  cons_if-Permᴰ false x s = s

  pub same_elements : (xs : List A) → Permᴰ xs xs
  same_elements [] = Permᴰ.nil
  same_elements (x ∷ xs) = Permᴰ.cons refl (same_elements xs)

  cons_if-cons_if :
      (b c : Bool) (x y : A) (xs : List A)
      → Permᴰ (cons_if b x (cons_if c y xs)) (cons_if c y (cons_if b x xs))
  cons_if-cons_if true true x y xs = Permᴰ.swap refl refl
  cons_if-cons_if true false x y xs = same_elements (x ∷ xs)
  cons_if-cons_if false true x y xs = same_elements (y ∷ xs)
  cons_if-cons_if false false x y xs = same_elements xs

  pub select-Permᴰ :
      (p : A → Bool) {xs ys : List A} → Permᴰ xs ys → Permᴰ (select p xs) (select p ys)
  select-Permᴰ p Permᴰ.nil = Permᴰ.nil
  select-Permᴰ p (Permᴰ.trans s t) = Permᴰ.trans (select-Permᴰ p s) (select-Permᴰ p t)
  select-Permᴰ p (Permᴰ.cons {a} {b} {l₂ = ys} e s) =
      rw e (cons_if-Permᴰ (p b) b {ys = select p ys} (select-Permᴰ p s))
  select-Permᴰ p (Permᴰ.swap {a} {b} {a'} {b'} {l = xs} e f) =
      rw (e, f) (cons_if-cons_if (p b') (p a') b' a' (select p xs))

  -- Two filters in either order.
  pub select_comm : (p q : A → Bool) (xs : List A) → select p (select q xs) ≡ select q (select p xs)
  select_comm p q [] = refl
  select_comm p q (x ∷ xs) = ground (arith, select_comm p q xs)
