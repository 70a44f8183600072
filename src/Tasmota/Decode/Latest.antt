-- ===== src/Tasmota/Decode/Latest.antt =====
-- What the members of an object leave in a field: what the last value for it comes to.
use Prim.Native.String.{String}
use mqtt_sensor_exporter.Common.{
  ◌≡◌, refl, sym, ◌∙◌, ap, inl, inr, Bool, true, false, Option, none, some, List, [], ◌∷◌,
  if◌then◌else◌, Option-cases, Result-cases, cons_if, Result, ok, err, ok_inj, if_false,
}
use mqtt_sensor_exporter.Float.{Float64}
use mqtt_sensor_exporter.Json.Value.{Json, Members, null, bool, number, text, no_members, member}
use mqtt_sensor_exporter.Tasmota.Types.{ZigbeeDevice}
use mqtt_sensor_exporter.Tasmota.Fields.{FieldValue}
use mqtt_sensor_exporter.Tasmota.Tags.{
  is_key_of, Field, tag_of, field_of, GoType, string, int_pointer, int64_pointer, float_pointer,
  bool_pointer, type_of, parse_int, Change, read_json,
}
use mqtt_sensor_exporter.Tasmota.Decode.{changed, decode_member, decode_members}
use mqtt_sensor_exporter.Tasmota.Decode.Assigned.{
  values_of, same_field, same_field-eq, is_key_of-none, is_key_of-some, field_value, Good, updated,
  field_value-change,
}

module _ {F : Type 0} (fl : Float64 F) where
  pub read_json-Good : (ty : GoType) (v : Json) → Good ty (read_json fl ty v)
  unfolding read_json
  read_json-Good string null = tt
  read_json-Good string (text s) = refl
  read_json-Good string _ = refl
  read_json-Good int_pointer null = refl
  read_json-Good int_pointer (number s) = elim (Option-cases (parse_int s)) [
    | inl e ↦ rw e refl
    | inr (n, e) ↦ rw e refl
  ]
  read_json-Good int_pointer _ = refl
  read_json-Good int64_pointer null = refl
  read_json-Good int64_pointer (number s) = elim (Option-cases (parse_int s)) [
    | inl e ↦ rw e refl
    | inr (n, e) ↦ rw e refl
  ]
  read_json-Good int64_pointer _ = refl
  read_json-Good float_pointer null = refl
  read_json-Good float_pointer (number s) = elim (Option-cases (fl.parse s)) [
    | inl e ↦ rw e refl
    | inr (n, e) ↦ rw e refl
  ]
  read_json-Good float_pointer _ = refl
  read_json-Good bool_pointer null = refl
  read_json-Good bool_pointer (bool b) = refl
  read_json-Good bool_pointer _ = refl

  -- The last of the values, as the field's type reads it; null leaves a text and clears a pointer.
  abbrev pub latest : GoType → List Json → Option (FieldValue F) → Option (FieldValue F)
  latest ty [] old = old
  latest ty (v ∷ vs) old = latest ty vs (updated (read_json fl ty v) old)

  pub decode_member_lem :
      (k : String) (v : Json) (zb zb' : ZigbeeDevice F)
      → decode_member fl (field_of k) v zb ≡ ok zb'
      → (g : Field)
      → field_value g zb' ≡ (
          if is_key_of (tag_of g) k
          then updated (read_json fl (type_of g) v) (field_value g zb)
          else field_value g zb)
  unfolding decode_member
  decode_member_lem k v zb zb' done g = go (field_of k) refl done
    where
      same_read :
          (f : Field) (b : Bool)
          → (b ≡ true → g ≡ f)
          → (if b
              then updated (read_json fl (type_of f) v) (field_value g zb)
              else field_value g zb)
            ≡ (if b
                then updated (read_json fl (type_of g) v) (field_value g zb)
                else field_value g zb)
      same_read f true same =
          ap (λ h. updated (read_json fl (type_of h) v) (field_value g zb)) (sym (same refl))
      same_read f false same = refl

      read :
          (f : Field) (r : Result (Change F))
          → Good (type_of f) r
          → changed fl f r zb ≡ ok zb'
          → field_value g zb'
            ≡ (if same_field g f then updated r (field_value g zb) else field_value g zb)
      read f (err e) good done = cc
      read f (ok c) good done =
          ap (field_value g) (sym (ok_inj done)) ∙ field_value-change g f c zb good

      go :
          (o : Option Field)
          → field_of k ≡ o
          → decode_member fl o v zb ≡ ok zb'
          → field_value g zb' ≡ (
              if is_key_of (tag_of g) k
              then updated (read_json fl (type_of g) v) (field_value g zb)
              else field_value g zb)
      go none e done =
          ap (field_value g) (sym (ok_inj done)) ∙ sym (if_false _ _ _ (is_key_of-none g k e))
      go (some f) e done =
          read f (read_json fl (type_of f) v) (read_json-Good (type_of f) v) done
          ∙ same_read f (same_field g f) (same_field-eq g f)
          ∙ ap
              (λ b.
                if b
                then updated (read_json fl (type_of g) v) (field_value g zb)
                else field_value g zb)
              (sym (is_key_of-some g f k e))

  pub latest-cons_if :
      (ty : GoType) (b : Bool) (v : Json) (vs : List Json) (old : Option (FieldValue F))
      → latest ty vs (if b then updated (read_json fl ty v) old else old)
        ≡ latest ty (cons_if b v vs) old
  latest-cons_if ty true v vs old = refl
  latest-cons_if ty false v vs old = refl

  pub decode_members-latest :
      (ms : Members) (zb zb' : ZigbeeDevice F)
      → decode_members fl ms zb ≡ ok zb'
      → (g : Field) → field_value g zb' ≡ latest (type_of g) (values_of g ms) (field_value g zb)
  unfolding decode_members
  decode_members-latest no_members zb zb' done g = ap (field_value g) (sym (ok_inj done))
  decode_members-latest (member k v ms) zb zb' done g =
      elim (Result-cases (decode_member fl (field_of k) v zb)) [
        | inl (zb₁, first) ↦
            decode_members-latest ms zb₁ zb' (rw first at done) g
            ∙ ap (latest (type_of g) (values_of g ms)) (decode_member_lem k v zb zb₁ first g)
            ∙ latest-cons_if (type_of g) (is_key_of (tag_of g) k) v (values_of g ms)
                (field_value g zb)
        | inr (e, first) ↦ cc (rw first at done)
      ]
