-- ===== src/Tasmota/Decode/Readable.antt =====
-- When an object cannot be decoded as a device.
use Prim.Native.String.{String}
use mqtt_sensor_exporter.Common.{
  ◌≡◌, refl, ◌∙◌, inl, inr, Bool, true, Option, none, some, Result-cases, All, any, not, Error,
  is_ok, Result, ok, err,
}
use mqtt_sensor_exporter.Common.Order.{All-cons_if, any-cons_if, any-first}
use mqtt_sensor_exporter.Float.{Float64}
use mqtt_sensor_exporter.Json.Value.{Json, Members, no_members, member}
use mqtt_sensor_exporter.Tasmota.Types.{ZigbeeDevice}
use mqtt_sensor_exporter.Tasmota.Tags.{
  is_key_of, Field, device, tag_of, field_of, GoType, type_of, Change, read_json, type_error,
}
use mqtt_sensor_exporter.Tasmota.Decode.{changed, decode_member, decode_members}
use mqtt_sensor_exporter.Tasmota.Decode.Assigned.{
  values_of, field_of-is_key_of, same_field, is_key_of-some, Good,
}
use mqtt_sensor_exporter.Tasmota.Decode.Latest.{read_json-Good}

module _ {F : Type 0} (fl : Float64 F) where
  abbrev pub is_readable : GoType → Json → Bool
  is_readable ty v = is_ok (read_json fl ty v)

  abbrev pub AllReadable : Members → Type 0
  AllReadable ms = (g : Field) → All (λ v. is_readable (type_of g) v ≡ true) (values_of g ms)

  decode_member-is_readable :
      (k : String) (v : Json) (zb zb' : ZigbeeDevice F)
      → decode_member fl (field_of k) v zb ≡ ok zb'
      → (g : Field) → is_key_of (tag_of g) k ≡ true
      → is_readable (type_of g) v ≡ true
  unfolding decode_member
  decode_member-is_readable k v zb zb' done g h =
      read (read_json fl (type_of g) v) (rw (field_of-is_key_of g k h) at done)
    where
      read : (r : Result (Change F)) → changed fl g r zb ≡ ok zb' → is_ok r ≡ true
      read (ok c) e = refl
      read (err x) e = cc

  pub decode_members-AllReadable :
      (ms : Members) (zb zb' : ZigbeeDevice F) → decode_members fl ms zb ≡ ok zb' → AllReadable ms
  unfolding decode_members
  decode_members-AllReadable no_members zb zb' done g = tt
  decode_members-AllReadable (member k v ms) zb zb' done g =
      elim (Result-cases (decode_member fl (field_of k) v zb)) [
        | inl (zb₁, first) ↦
            All-cons_if _ (is_key_of (tag_of g) k) v (values_of g ms)
              (decode_member-is_readable k v zb zb₁ first g)
              (decode_members-AllReadable ms zb₁ zb' (rw first at done) g)
        | inr (e, first) ↦ cc (rw first at done)
      ]

  -- A field with a value that its type cannot read.
  abbrev pub Unreadable : Members → Type 0
  Unreadable ms = (g : Field) × (any (λ v. not (is_readable (type_of g) v)) (values_of g ms) ≡ true)

  decode_member-Unreadable :
      (k : String) (v : Json) (ms : Members) (zb : ZigbeeDevice F) (e : Error)
      → decode_member fl (field_of k) v zb ≡ err e
      → (e ≡ type_error) × Unreadable (member k v ms)
  unfolding decode_member
  decode_member-Unreadable k v ms zb e failed = go (field_of k) refl failed
    where
      read :
          (f : Field) (r : Result (Change F))
          → Good (type_of f) r
          → changed fl f r zb ≡ err e
          → (e ≡ type_error) × (not (is_ok r) ≡ true)
      read f (ok c) good q = cc
      read f (err x) good q = (cc, refl)

      go :
          (o : Option Field)
          → field_of k ≡ o
          → decode_member fl o v zb ≡ err e
          → (e ≡ type_error) × Unreadable (member k v ms)
      go none q failed = cc
      go (some f) q failed =
          let (is_error, bad) =
            read f (read_json fl (type_of f) v) (read_json-Good fl (type_of f) v) failed in
          (
            is_error,
            (
              f,
              any-first (λ v. not (is_readable (type_of f) v)) (is_key_of (tag_of f) k) v
                  (values_of f ms) (is_key_of-some f f k q ∙ itself f) bad,
            ),
          )
        where
          itself : (f : Field) → same_field f f ≡ true
          itself device = refl
          itself _ = refl

  pub decode_members-Unreadable :
      (ms : Members) (zb : ZigbeeDevice F) (e : Error)
      → decode_members fl ms zb ≡ err e
      → (e ≡ type_error) × Unreadable ms
  unfolding decode_members
  decode_members-Unreadable no_members zb e failed = cc
  decode_members-Unreadable (member k v ms) zb e failed =
      elim (Result-cases (decode_member fl (field_of k) v zb)) [
        | inl (zb₁, first) ↦
            let (is_error, (g, bad)) = decode_members-Unreadable ms zb₁ e (rw first at failed) in
            (is_error, (g, any-cons_if _ (is_key_of (tag_of g) k) v (values_of g ms) bad))
        | inr (x, first) ↦ decode_member-Unreadable k v ms zb e (first ∙ (rw first at failed))
      ]
