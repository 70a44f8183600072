-- ===== src/Common/Dict.antt =====
-- Go maps with text keys as association lists: `m[k] = v`, `delete(m, k)` and `v, ok := m[k]`.
use Prim.Native.String.{String}
use mathlib.Core.Path.{◌≡◌, refl}
use mathlib.Core.Logic.{inl, inr}
use mathlib.Core.Option.{Option, none, some}
use mathlib.Core.List.{List, [], ◌∷◌}
use native.Mathlib.Omega.{arith}
use text.Mathlib.Text.{◌==◌}
use text.Mathlib.TextEquality.{eq_iff}
use mqtt_sensor_exporter.Common.Tests.{if◌then◌else◌, Bool-cases}
use mqtt_sensor_exporter.Common.Lists.{All}

abbrev pub Dict {ℓ} : Type ℓ → Type ℓ
Dict V = List (String × V)

module _ {ℓ} {V : Type ℓ} where
  -- `none` stands for `ok == false`.
  unfoldable pub lookup : String → Dict V → Option V
  lookup key [] = none
  lookup key ((head, value) ∷ rest) = if head == key then some value else lookup key rest

  -- `delete` of every entry under the key.
  unfoldable pub erase : String → Dict V → Dict V
  erase key [] = []
  erase key ((head, value) ∷ rest) =
      let kept = erase key rest in if head == key then kept else (head, value) ∷ kept

  pub lookup-erase :
      (key asked : String) (entries : Dict V)
      → lookup asked (erase key entries) ≡ (if key == asked then none else lookup asked entries)
  unfolding lookup erase
  lookup-erase key asked [] = ground arith
  lookup-erase key asked ((head, value) ∷ rest) =
      ground
        (arith, eq_iff head asked, eq_iff head key, eq_iff key asked, lookup-erase key asked rest)

  -- An assignment replaces the entry in its place, or adds one at the end.
  unfoldable pub insert : String → V → Dict V → Dict V
  insert key new [] = (key, new) ∷ []
  insert key new ((head, old) ∷ rest) =
      let later = insert key new rest in
      if head == key then (key, new) ∷ rest else (head, old) ∷ later

  pub lookup-insert :
      (key asked : String) (new : V) (entries : Dict V)
      → lookup asked (insert key new entries)
        ≡ (if key == asked then some new else lookup asked entries)
  unfolding lookup insert
  lookup-insert key asked new [] = refl
  lookup-insert key asked new ((head, old) ∷ rest) = ground (
    arith,
    eq_iff head asked,
    eq_iff head key,
    eq_iff key asked,
    lookup-insert key asked new rest,
  )

module _ {ℓ} {V : Type ℓ} where
  pub erase_of_absent : (k : String) (m : Dict V) → lookup k m ≡ none → erase k m ≡ m
  unfolding lookup erase
  erase_of_absent k [] h = refl
  erase_of_absent k ((i, w) ∷ m) h = ground (arith, erase_of_absent k m)

  -- No key stands twice.
  abbrev pub NodupKeys : Dict V → Type ℓ
  NodupKeys [] = Unit
  NodupKeys ((k, _) ∷ m) = (lookup k m ≡ none) × NodupKeys m

  pub erase-NodupKeys : (k : String) (m : Dict V) → NodupKeys m → NodupKeys (erase k m)
  unfolding erase
  erase-NodupKeys k [] h = tt
  erase-NodupKeys k ((i, w) ∷ m) h = ground (arith, erase-NodupKeys k m h.1, lookup-erase k i m)

  pub insert-NodupKeys : (k : String) (v : V) (m : Dict V) → NodupKeys m → NodupKeys (insert k v m)
  unfolding insert lookup
  insert-NodupKeys k v [] h = (refl, tt)
  insert-NodupKeys k v ((i, w) ∷ m) h =
      ground (arith, insert-NodupKeys k v m h.1, lookup-insert k i v m, eq_iff i k, eq_iff k i)

  pub All-erase {κ} :
      (P : String × V → Type κ) (k : String) (m : Dict V) → All P m → All P (erase k m)
  unfolding erase
  All-erase P k [] h = tt
  All-erase P k ((i, w) ∷ m) h = elim (Bool-cases (i == k)) [
    | inl e ↦ rw e (All-erase P k m h.1)
    | inr e ↦ rw e (h.0, All-erase P k m h.1)
  ]

  pub All-insert {κ} :
      (P : String × V → Type κ) (k : String) (v : V) (m : Dict V)
      → P (k, v)
      → All P m
      → All P (insert k v m)
  unfolding insert
  All-insert P k v [] p h = (p, tt)
  All-insert P k v ((i, w) ∷ m) p h = elim (Bool-cases (i == k)) [
    | inl e ↦ rw e (p, h.1)
    | inr e ↦ rw e (h.0, All-insert P k v m p h.1)
  ]
