-- ===== src/Tasmota/Decode/Spec.antt =====
-- What a device of a message is to hold, by the values that its object has for each field.
use Prim.Native.String.{String}
use mqtt_sensor_exporter.Common.{
  ◌≡◌, Bool, true, false, not, Option, none, some, List, [], ◌∷◌, cons_if, All, any, Result, ok,
  err,
}
use mqtt_sensor_exporter.Float.{Float64}
use mqtt_sensor_exporter.Json.Value.{Json, Members, null, bool, number, text, no_members, member}
use mqtt_sensor_exporter.Tasmota.Types.{ZigbeeDevice}
use mqtt_sensor_exporter.Tasmota.Fields.{
  FieldValue, string_value, int_value, int64_value, float_value, bool_value, deref, get_field_value,
}
use mqtt_sensor_exporter.Tasmota.Tags.{
  is_key_of, Field, device, name, temperature, humidity, pressure, voltage, contact, occupancy,
  water_leak, water_level, irrigation_start_time, irrigation_end_time, GoType, string, int_pointer,
  int64_pointer, float_pointer, bool_pointer, parse_int, type_error,
}
use mqtt_sensor_exporter.Tasmota.Decode.Assigned.{go_name}

-- A field is named by its Go name, in any case, but for the water level: Tasmota has no name for it.
abbrev pub key_name : Field → String
key_name water_level = "EF00/0202"
key_name f = go_name f

-- The values that an object has for a field, in the order of the document.
abbrev pub given : Field → Members → List Json
given f no_members = []
given f (member k v ms) = cons_if (is_key_of (key_name f) k) v (given f ms)

-- The names are texts, the measurements of the air and the voltage numbers, the contacts truth
-- values, the two times whole numbers of 64 bits, and the others whole numbers.
abbrev pub kind_of : Field → GoType
kind_of device = string
kind_of name = string
kind_of temperature = float_pointer
kind_of humidity = float_pointer
kind_of pressure = float_pointer
kind_of voltage = float_pointer
kind_of contact = bool_pointer
kind_of occupancy = bool_pointer
kind_of water_leak = bool_pointer
kind_of irrigation_start_time = int64_pointer
kind_of irrigation_end_time = int64_pointer
kind_of _ = int_pointer

module _ {F : Type 0} (fl : Float64 F) where
  -- The value that a JSON value other than null stands for in a field of a kind, if it fits.
  abbrev pub fitting : Json → GoType → Option (FieldValue F)
  fitting (text s) string = some (string_value s)
  fitting (bool b) bool_pointer = some (bool_value b)
  fitting (number s) int_pointer = deref int_value (parse_int s)
  fitting (number s) int64_pointer = deref int64_value (parse_int s)
  fitting (number s) float_pointer = deref float_value (fl.parse s)
  fitting _ _ = none

  -- null fits everywhere: it leaves a text and takes any other value away.
  abbrev pub after_null : GoType → Option (FieldValue F) → Option (FieldValue F)
  after_null string old = old
  after_null _ old = none

  abbrev pub or_old : Option (FieldValue F) → Option (FieldValue F) → Option (FieldValue F)
  or_old none old = old
  or_old (some x) old = some x

  abbrev pub after_value : GoType → Json → Option (FieldValue F) → Option (FieldValue F)
  after_value ty null old = after_null ty old
  after_value ty v old = or_old (fitting v ty) old

  abbrev pub is_there : Option (FieldValue F) → Bool
  is_there none = false
  is_there (some x) = true

  abbrev pub fits : GoType → Json → Bool
  fits ty null = true
  fits ty v = is_there (fitting v ty)

  abbrev pub after_all : GoType → List Json → Option (FieldValue F) → Option (FieldValue F)
  after_all ty [] old = old
  after_all ty (v ∷ vs) old = after_all ty vs (after_value ty v old)

  -- Without any value: the empty text, or nil.
  abbrev pub at_first : GoType → Option (FieldValue F)
  at_first string = some (string_value "")
  at_first _ = none

  -- What decoding an object as a device comes to.
  abbrev pub DecodeOutcome : Members → Result (ZigbeeDevice F) → Type 0
  DecodeOutcome ms (ok zb) =
      (g : Field)
      → All (λ v. fits (kind_of g) v ≡ true) (given g ms)
        × (get_field_value (some zb) (go_name g)
            ≡ after_all (kind_of g) (given g ms) (at_first (kind_of g)))
  DecodeOutcome ms (err e) =
      (e ≡ type_error) × (g : Field) × (any (λ v. not (fits (kind_of g) v)) (given g ms) ≡ true)
