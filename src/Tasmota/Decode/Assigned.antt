-- ===== src/Tasmota/Decode/Assigned.antt =====
-- Which field a key names, and what an assignment to a field leaves in it and in the others.
use Prim.Native.String.{String}
use mqtt_sensor_exporter.Common.{
  ℕ, ◌≡◌, refl, sym, ◌∙◌, ap, inl, inr, Bool, true, false, Option, none, some, List, [], ◌∷◌,
  if◌then◌else◌, Bool-cases, eqb_iff, find, cons_if, Result, ok, err, some_inj, arith,
}
use mqtt_sensor_exporter.Common.Dict.{lookup}
use mqtt_sensor_exporter.Common.Order.{find-eq-some}
use mqtt_sensor_exporter.Json.Value.{Json, Members, no_members, member}
use mqtt_sensor_exporter.Tasmota.Types.{ZigbeeDevice}
use mqtt_sensor_exporter.Tasmota.Fields.{
  FieldValue, string_value, int_value, int64_value, float_value, bool_value, deref, fields_of,
  get_field_value,
}
use mqtt_sensor_exporter.Tasmota.Tags.{
  fold_name, same_codes, is_key_of, Field, device, name, power, endpoint, link_quality,
  battery_percentage, temperature, humidity, pressure, voltage, contact, occupancy, water_leak,
  water_level, last_valve_open_duration, irrigation_start_time, irrigation_end_time,
  daily_irrigation_volume, tag_of, all_fields, field_of, GoType, string, int_pointer, int64_pointer,
  float_pointer, bool_pointer, type_of, Change, keep, clear, put, type_error,
}
use mqtt_sensor_exporter.Tasmota.Decode.{
  as_string, as_int, as_int64, as_float, as_bool, assign, change,
}

-- The names of the fields in Go.
abbrev pub go_name : Field → String
go_name device = "Device"
go_name name = "Name"
go_name power = "Power"
go_name endpoint = "Endpoint"
go_name link_quality = "LinkQuality"
go_name battery_percentage = "BatteryPercentage"
go_name temperature = "Temperature"
go_name humidity = "Humidity"
go_name pressure = "Pressure"
go_name voltage = "Voltage"
go_name contact = "Contact"
go_name occupancy = "Occupancy"
go_name water_leak = "WaterLeak"
go_name water_level = "WaterLevel"
go_name last_valve_open_duration = "LastValveOpenDuration"
go_name irrigation_start_time = "IrrigationStartTime"
go_name irrigation_end_time = "IrrigationEndTime"
go_name daily_irrigation_volume = "DailyIrrigationVolume"

-- The values that an object has for a field, in the order of the document.
abbrev pub values_of : Field → Members → List Json
values_of f no_members = []
values_of f (member k v ms) = cons_if (is_key_of (tag_of f) k) v (values_of f ms)

pub same_codes-eq : (xs ys : List ℕ) → same_codes xs ys ≡ true → xs ≡ ys
same_codes-eq [] [] h = refl
same_codes-eq [] (y ∷ ys) h = cc
same_codes-eq (x ∷ xs) [] h = cc
same_codes-eq (x ∷ xs) (y ∷ ys) h = ground (arith, eqb_iff x y, same_codes-eq xs ys)

-- A key that names a field names no other.
pub field_of-is_key_of :
    (f : Field) (k : String) → is_key_of (tag_of f) k ≡ true → field_of k ≡ some f
unfolding field_of is_key_of
field_of-is_key_of f k h =
    ap (λ codes. find (λ g. same_codes (fold_name (tag_of g)) codes) all_fields)
      (sym (same_codes-eq (fold_name (tag_of f)) (fold_name k) h))
    ∙ itself f
  where
    itself :
        (f : Field)
        → find (λ g. same_codes (fold_name (tag_of g)) (fold_name (tag_of f))) all_fields ≡ some f
    itself device = refl
    itself _ = refl

abbrev pub same_field : Field → Field → Bool
same_field f g = same_codes (fold_name (tag_of f)) (fold_name (tag_of g))

pub same_field-eq : (g f : Field) → same_field g f ≡ true → g ≡ f
unfolding is_key_of
same_field-eq g f h =
    some_inj (sym (field_of-is_key_of g (tag_of f) h) ∙ field_of-is_key_of f (tag_of f) (itself f))
  where
    itself : (f : Field) → same_field f f ≡ true
    itself device = refl
    itself _ = refl

-- Which field a key names decides which tags it fits.
pub is_key_of-none : (g : Field) (k : String) → field_of k ≡ none → is_key_of (tag_of g) k ≡ false
is_key_of-none g k e = elim (Bool-cases (is_key_of (tag_of g) k)) [
  | inl h ↦ cc (sym e ∙ field_of-is_key_of g k h)
  | inr h ↦ h
]

pub is_key_of-some :
    (g f : Field) (k : String) → field_of k ≡ some f → is_key_of (tag_of g) k ≡ same_field g f
unfolding is_key_of field_of
is_key_of-some g f k e =
    let fits =
      (find-eq-some (λ h. same_codes (fold_name (tag_of h)) (fold_name k)) all_fields f e).1 in
    ap (same_codes (fold_name (tag_of g)))
      (sym (same_codes-eq (fold_name (tag_of f)) (fold_name k) fits))

module _ {F : Type 0} where
  abbrev pub field_value : Field → ZigbeeDevice F → Option (FieldValue F)
  field_value f zb = get_field_value (some zb) (go_name f)

  -- What an assignment leaves in a field of a type.
  abbrev pub typed : GoType → Option (FieldValue F) → Option (FieldValue F)
  typed string v = some (string_value (as_string v))
  typed int_pointer v = deref int_value (as_int v)
  typed int64_pointer v = deref int64_value (as_int64 v)
  typed float_pointer v = deref float_value (as_float v)
  typed bool_pointer v = deref bool_value (as_bool v)

  pub field_value-assign :
      (f g : Field) (v : Option (FieldValue F)) (zb : ZigbeeDevice F)
      → field_value g (assign f v zb)
        ≡ (if same_field g f then typed (type_of f) v else field_value g zb)
  unfolding get_field_value fields_of lookup assign
  field_value-assign device device v zb = refl
  field_value-assign device _ v zb = refl
  field_value-assign _ device v zb = refl
  field_value-assign _ _ v zb = refl

  -- A value that is put has the type of its field, and only a pointer is cleared.
  abbrev pub Fits : GoType → Change F → Type 0
  Fits ty keep = Unit
  Fits ty clear = typed ty none ≡ none
  Fits ty (put x) = typed ty (some x) ≡ some x

  abbrev pub Good : GoType → Result (Change F) → Type 0
  Good ty (ok c) = Fits ty c
  Good ty (err e) = e ≡ type_error

  -- What a member does to the value of its field.
  abbrev pub updated : Result (Change F) → Option (FieldValue F) → Option (FieldValue F)
  updated (ok keep) old = old
  updated (ok clear) old = none
  updated (ok (put x)) old = some x
  updated (err e) old = old

  pub field_value-change :
      (g f : Field) (c : Change F) (zb : ZigbeeDevice F)
      → Fits (type_of f) c
      → field_value g (change f c zb)
        ≡ (if same_field g f then updated (ok c) (field_value g zb) else field_value g zb)
  unfolding change
  field_value-change g f keep zb fits = either (same_field g f)
    where
      either : (b : Bool) → field_value g zb ≡ (if b then field_value g zb else field_value g zb)
      either true = refl
      either false = refl
  field_value-change g f clear zb fits =
      field_value-assign f g none zb ∙ ap (λ v. if same_field g f then v else field_value g zb) fits
  field_value-change g f (put x) zb fits =
      field_value-assign f g (some x) zb
      ∙ ap (λ v. if same_field g f then v else field_value g zb) fits
