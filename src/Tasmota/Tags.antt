-- ===== src/Tasmota/Tags.antt =====
-- internal/tasmota/types.go: the tags and the types of a device's fields, by which `json.Unmarshal`
-- finds a field for a key and reads a value for it. null leaves a text as it is and makes a pointer
-- nil, and a value that does not fit is an error, cut before the value that it names.
use Prim.Native.Char.{code}
use Prim.Native.String.{String, [] as empty, ◌∷◌ as ◌▷◌}
use mqtt_sensor_exporter.Common.{
  ℕ, ◌-◌, Bool, true, false, ◌&&◌, Option, none, some, List, [], ◌∷◌, if◌then◌else◌, eqb, leb, ltb,
  find, Error, errorf, Result, ok, err,
}
use mqtt_sensor_exporter.Common.Int.{ℤ, pos_part, neg_part}
use mqtt_sensor_exporter.Common.Decimal.Read.{read_int}
use mqtt_sensor_exporter.Float.{Float64}
use mqtt_sensor_exporter.Json.Value.{Json, null, bool, number, text}
use mqtt_sensor_exporter.Tasmota.Fields.{
  FieldValue, string_value, int_value, int64_value, float_value, bool_value,
}

-- `foldRune`, for runes that fold to an ASCII one.
abbrev pub fold_code : ℕ → ℕ
fold_code c =
    if leb 97 c && leb c 122
    then c - 32
    else if eqb c 0x17F
    then 83
    else if eqb c 0x212A
    then 75
    else c

abbrev pub fold_name : String → List ℕ
fold_name empty = []
fold_name (c ▷ s) = fold_code (code c) ∷ fold_name s

abbrev pub same_codes : List ℕ → List ℕ → Bool
same_codes [] [] = true
same_codes [] (y ∷ ys) = false
same_codes (x ∷ xs) [] = false
same_codes (x ∷ xs) (y ∷ ys) = eqb x y && same_codes xs ys

-- A key names a field whatever its case: no two tags of a struct differ in their case only.
unfoldable pub is_key_of : String → String → Bool
is_key_of tag key = same_codes (fold_name tag) (fold_name key)

-- The fields of `ZigbeeDevice` that have a tag.
pub data Field : Type 0 where
  device name power endpoint link_quality battery_percentage temperature humidity pressure voltage
        contact occupancy water_leak water_level last_valve_open_duration irrigation_start_time
        irrigation_end_time daily_irrigation_volume :
      Field

abbrev pub tag_of : Field → String
tag_of device = "Device"
tag_of name = "Name"
tag_of power = "Power"
tag_of endpoint = "Endpoint"
tag_of link_quality = "LinkQuality"
tag_of battery_percentage = "BatteryPercentage"
tag_of temperature = "Temperature"
tag_of humidity = "Humidity"
tag_of pressure = "Pressure"
tag_of voltage = "Voltage"
tag_of contact = "Contact"
tag_of occupancy = "Occupancy"
tag_of water_leak = "WaterLeak"
tag_of water_level = "EF00/0202"
tag_of last_valve_open_duration = "lastValveOpenDuration"
tag_of irrigation_start_time = "irrigationStartTime"
tag_of irrigation_end_time = "irrigationEndTime"
tag_of daily_irrigation_volume = "dailyIrrigationVolume"

abbrev pub all_fields : List Field
all_fields =
    device ∷ name ∷ power ∷ endpoint ∷ link_quality ∷ battery_percentage ∷ temperature ∷ humidity
    ∷ pressure ∷ voltage ∷ contact ∷ occupancy ∷ water_leak ∷ water_level ∷ last_valve_open_duration
    ∷ irrigation_start_time ∷ irrigation_end_time ∷ daily_irrigation_volume ∷ []

unfoldable pub field_of : String → Option Field
field_of key = find (λ f. is_key_of (tag_of f) key) all_fields

-- The Go type of a field.
pub data GoType : Type 0 where
  string int_pointer int64_pointer float_pointer bool_pointer : GoType

abbrev pub type_of : Field → GoType
type_of device = string
type_of name = string
type_of power = int_pointer
type_of endpoint = int_pointer
type_of link_quality = int_pointer
type_of battery_percentage = int_pointer
type_of temperature = float_pointer
type_of humidity = float_pointer
type_of pressure = float_pointer
type_of voltage = float_pointer
type_of contact = bool_pointer
type_of occupancy = bool_pointer
type_of water_leak = bool_pointer
type_of water_level = int_pointer
type_of last_valve_open_duration = int_pointer
type_of irrigation_start_time = int64_pointer
type_of irrigation_end_time = int64_pointer
type_of daily_irrigation_volume = int_pointer

-- `strconv.ParseInt(literal, 10, 64)`, on the literals of the JSON grammar: a fraction or an exponent
-- is an error, and so is a number outside the range.
abbrev pub all_digits : String → Bool
all_digits empty = true
all_digits (c ▷ s) = leb 48 (code c) && leb (code c) 57 && all_digits s

abbrev pub is_integral : String → Bool
is_integral empty = false
is_integral (c ▷ s) = if eqb (code c) 45 then all_digits s else all_digits (c ▷ s)

abbrev pub in_range : ℤ → Bool
in_range n = ltb (pos_part n) 9223372036854775808 && leb (neg_part n) 9223372036854775808

unfoldable pub parse_int : String → Option ℤ
parse_int literal =
    if is_integral literal && in_range (read_int literal) then some (read_int literal) else none

-- What a value does to a field: nothing, a nil pointer, or a new value.
pub data Change (F : Type 0) : Type 0 where
  keep : Change F
  clear : Change F
  put : FieldValue F → Change F

-- `*json.UnmarshalTypeError`
abbrev pub type_error : Error
type_error = errorf "json: cannot unmarshal"

abbrev pub or_type_error : {A F : Type 0} → (A → FieldValue F) → Option A → Result (Change F)
or_type_error wrap none = err type_error
or_type_error wrap (some x) = ok (put (wrap x))

module _ {F : Type 0} (fl : Float64 F) where
  unfoldable pub read_json : GoType → Json → Result (Change F)
  read_json string null = ok keep
  read_json string (text s) = ok (put (string_value s))
  read_json string _ = err type_error
  read_json int_pointer null = ok clear
  read_json int_pointer (number s) = or_type_error int_value (parse_int s)
  read_json int_pointer _ = err type_error
  read_json int64_pointer null = ok clear
  read_json int64_pointer (number s) = or_type_error int64_value (parse_int s)
  read_json int64_pointer _ = err type_error
  read_json float_pointer null = ok clear
  read_json float_pointer (number s) = or_type_error float_value (fl.parse s)
  read_json float_pointer _ = err type_error
  read_json bool_pointer null = ok clear
  read_json bool_pointer (bool b) = ok (put (bool_value b))
  read_json bool_pointer _ = err type_error
