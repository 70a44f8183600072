-- ===== src/Tasmota/Decode/Laws.antt =====
-- What a decoded device holds, and when an object cannot be decoded as one.
use Prim.Native.String.{String}
use mqtt_sensor_exporter.Common.{◌≡◌, ◌∙◌, inl, inr, true, All, any, not, Result, ok, err}
use mqtt_sensor_exporter.Float.{Float64}
use mqtt_sensor_exporter.Json.Value.{Json, Members, object, no_members, member}
use mqtt_sensor_exporter.Tasmota.Types.{ZigbeeDevice}
use mqtt_sensor_exporter.Tasmota.Decode.{zero_device, decode_members, decode_device}
use mqtt_sensor_exporter.Tasmota.Decode.Assigned.{go_name, values_of}
use mqtt_sensor_exporter.Tasmota.Decode.Latest.{latest, decode_members-latest}
use mathlib.Core.Path.{subst}
use mqtt_sensor_exporter.Common.{Option-cases, sym, ap, refl, List, [], ◌∷◌, Option, none, some}
use mqtt_sensor_exporter.Common.Dict.{lookup}
use mqtt_sensor_exporter.Common.Int.{ℤ}
use mqtt_sensor_exporter.Json.Value.{null, bool, number, text}
use mqtt_sensor_exporter.Tasmota.Fields.{
  FieldValue, int_value, int64_value, float_value, deref, fields_of, get_field_value,
}
use mqtt_sensor_exporter.Tasmota.Tags.{
  device, string, int_pointer, int64_pointer, float_pointer, bool_pointer, or_type_error, parse_int,
  tag_of, type_of, GoType, read_json, Field, is_key_of,
}
use mqtt_sensor_exporter.Tasmota.Decode.Assigned.{updated}
use mqtt_sensor_exporter.Tasmota.Decode.Spec.{
  key_name, given, kind_of, or_old, after_value, fits, after_all, at_first, DecodeOutcome,
}
use mqtt_sensor_exporter.Tasmota.Decode.Readable.{
  is_readable, decode_members-AllReadable, decode_members-Unreadable,
}

module _ {F : Type 0} (fl : Float64 F) where
  -- The description and the code agree on the keys, the kinds and the values.
  is_key_of-key_name : (f : Field) (k : String) → is_key_of (tag_of f) k ≡ is_key_of (key_name f) k
  unfolding is_key_of
  is_key_of-key_name device k = refl
  is_key_of-key_name _ k = refl

  type_of-kind_of : (f : Field) → type_of f ≡ kind_of f
  type_of-kind_of device = refl
  type_of-kind_of _ = refl

  values_of-given : (f : Field) (ms : Members) → values_of f ms ≡ given f ms
  values_of-given f no_members = refl
  values_of-given f (member k v ms) = rw (is_key_of-key_name f k, values_of-given f ms) refl

  updated-after_value :
      (ty : GoType) (v : Json) (old : Option (FieldValue F))
      → updated (read_json fl ty v) old ≡ after_value fl ty v old
  unfolding read_json
  updated-after_value string null old = refl
  updated-after_value string (text s) old = refl
  updated-after_value string _ old = refl
  updated-after_value int_pointer null old = refl
  updated-after_value int_pointer (number s) old = whole (parse_int s)
    where
      whole :
          (n : Option ℤ)
          → updated (or_type_error int_value n) old ≡ or_old fl (deref int_value n) old
      whole none = refl
      whole (some n) = refl
  updated-after_value int_pointer _ old = refl
  updated-after_value int64_pointer null old = refl
  updated-after_value int64_pointer (number s) old = whole (parse_int s)
    where
      whole :
          (n : Option ℤ)
          → updated (or_type_error int64_value n) old ≡ or_old fl (deref int64_value n) old
      whole none = refl
      whole (some n) = refl
  updated-after_value int64_pointer _ old = refl
  updated-after_value float_pointer null old = refl
  updated-after_value float_pointer (number s) old = real (fl.parse s)
    where
      real :
          (x : Option F)
          → updated (or_type_error float_value x) old ≡ or_old fl (deref float_value x) old
      real none = refl
      real (some x) = refl
  updated-after_value float_pointer _ old = refl
  updated-after_value bool_pointer null old = refl
  updated-after_value bool_pointer (bool b) old = refl
  updated-after_value bool_pointer _ old = refl

  is_readable-fits : (ty : GoType) (v : Json) → is_readable fl ty v ≡ fits fl ty v
  unfolding read_json
  is_readable-fits string null = refl
  is_readable-fits string (text s) = refl
  is_readable-fits string _ = refl
  is_readable-fits int_pointer null = refl
  is_readable-fits int_pointer (number s) = elim (Option-cases (parse_int s)) [
    | inl e ↦ rw e refl
    | inr (n, e) ↦ rw e refl
  ]
  is_readable-fits int_pointer _ = refl
  is_readable-fits int64_pointer null = refl
  is_readable-fits int64_pointer (number s) = elim (Option-cases (parse_int s)) [
    | inl e ↦ rw e refl
    | inr (n, e) ↦ rw e refl
  ]
  is_readable-fits int64_pointer _ = refl
  is_readable-fits float_pointer null = refl
  is_readable-fits float_pointer (number s) = elim (Option-cases (fl.parse s)) [
    | inl e ↦ rw e refl
    | inr (x, e) ↦ rw e refl
  ]
  is_readable-fits float_pointer _ = refl
  is_readable-fits bool_pointer null = refl
  is_readable-fits bool_pointer (bool b) = refl
  is_readable-fits bool_pointer _ = refl

  latest-after_all :
      (ty : GoType) (vs : List Json) (old : Option (FieldValue F))
      → latest fl ty vs old ≡ after_all fl ty vs old
  latest-after_all ty [] old = refl
  latest-after_all ty (v ∷ vs) old =
      latest-after_all ty vs (updated (read_json fl ty v) old)
      ∙ ap (after_all fl ty vs) (updated-after_value ty v old)

  All-fits :
      (ty : GoType) (vs : List Json)
      → All (λ v. is_readable fl ty v ≡ true) vs
      → All (λ v. fits fl ty v ≡ true) vs
  All-fits ty [] all = tt
  All-fits ty (v ∷ vs) (first, rest) = (sym (is_readable-fits ty v) ∙ first, All-fits ty vs rest)

  any-fits :
      (ty : GoType) (vs : List Json)
      → any (λ v. not (is_readable fl ty v)) vs ≡ any (λ v. not (fits fl ty v)) vs
  any-fits ty [] = refl
  any-fits ty (v ∷ vs) = rw (is_readable-fits ty v, any-fits ty vs) refl

  zero-at_first :
      (g : Field)
      → get_field_value (some (zero_device {F = F})) (go_name g) ≡ at_first fl (kind_of g)
  unfolding get_field_value fields_of lookup
  zero-at_first device = refl
  zero-at_first _ = refl

  -- Decoding an object as a device, for every object: it fails exactly if a field has a value that
  -- does not fit its kind. Otherwise each of the eighteen fields holds what the values come to, in
  -- their order, that the object has under the field's Go name, in any case, or under EF00/0202 for
  -- the water level: the last one, where null leaves a text and makes a pointer nil, and the zero
  -- value without any.
  pub decode_device_outcome : (ms : Members) → DecodeOutcome fl ms (decode_device fl (object ms))
  unfolding decode_device
  decode_device_outcome ms = go (decode_members fl ms zero_device) refl
    where
      go :
          (r : Result (ZigbeeDevice F))
          → decode_members fl ms zero_device ≡ r
          → DecodeOutcome fl ms r
      go (ok zb) e = λ g. (
        subst (λ vs. All (λ v. fits fl (kind_of g) v ≡ true) vs) (values_of-given g ms)
            (All-fits (kind_of g) (values_of g ms) (
              subst (λ ty. All (λ v. is_readable fl ty v ≡ true) (values_of g ms))
                (type_of-kind_of g) (decode_members-AllReadable fl ms zero_device zb e g))),
        decode_members-latest fl ms zero_device zb e g
            ∙ latest-after_all (type_of g) (values_of g ms) _
            ∙ rw (type_of-kind_of g, values_of-given g ms, zero-at_first g) refl,
      )
      go (err x) e =
          let (is_error, (g, bad)) = decode_members-Unreadable fl ms zero_device x e in
          (
            is_error,
            g,
            subst (λ vs. any (λ v. not (fits fl (kind_of g) v)) vs ≡ true) (values_of-given g ms)
                (sym (any-fits (kind_of g) (values_of g ms))
                  ∙ (subst (λ ty. any (λ v. not (is_readable fl ty v)) (values_of g ms) ≡ true)
                      (type_of-kind_of g) bad)),
          )
