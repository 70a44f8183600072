-- ===== src/Tasmota/Decode.antt =====
-- internal/tasmota/types.go: the messages, as `json.Unmarshal` fills them from their tags;
-- telemetry_handler.go: the call of it.
pub mod Assigned
pub mod Latest
pub mod Readable
pub mod Laws
pub mod Spec
use Prim.Native.Char.{Char, code}
use Prim.Native.String.{String, [] as empty, ◌∷◌ as ◌▷◌}
use mqtt_sensor_exporter.Common.{
  ℕ, ◌-◌, ◌==◌, Bool, true, false, ◌&&◌, ◌||◌, Option, none, some, List, [], ◌∷◌, if◌then◌else◌,
  eqb, leb, ltb, find, Error, errorf, Result, ok, err,
}
use mqtt_sensor_exporter.Common.Dict.{Dict, insert}
use mqtt_sensor_exporter.Common.Int.{ℤ, pos, negsuc, pos_part, neg_part}
use mqtt_sensor_exporter.Common.Decimal.Read.{read_int}
use mqtt_sensor_exporter.Float.{Float64}
use mqtt_sensor_exporter.Json.Value.{
  Json, Members, null, bool, number, text, array, object, no_members, member,
}
use mqtt_sensor_exporter.Tasmota.Types.{ZigbeeDevice, TelemetryMessage}
use mqtt_sensor_exporter.Tasmota.Fields.{
  FieldValue, string_value, int_value, int64_value, float_value, bool_value,
}
use mqtt_sensor_exporter.Tasmota.Tags.{
  fold_code, fold_name, same_codes, is_key_of, tag_of, all_fields, field_of, type_of, all_digits,
  is_integral, in_range, parse_int, type_error, or_type_error, read_json, Field, device, name,
  power, endpoint, link_quality, battery_percentage, temperature, humidity, pressure, voltage,
  contact, occupancy, water_leak, water_level, last_valve_open_duration, irrigation_start_time,
  irrigation_end_time, daily_irrigation_volume, GoType, string, int_pointer, int64_pointer,
  float_pointer, bool_pointer, Change, keep, clear, put,
}

module _ {F : Type 0} where
  abbrev pub as_string : Option (FieldValue F) → String
  as_string (some (string_value s)) = s
  as_string _ = ""

  abbrev pub as_int : Option (FieldValue F) → Option ℤ
  as_int (some (int_value n)) = some n
  as_int _ = none

  abbrev pub as_int64 : Option (FieldValue F) → Option ℤ
  as_int64 (some (int64_value n)) = some n
  as_int64 _ = none

  abbrev pub as_float : Option (FieldValue F) → Option F
  as_float (some (float_value x)) = some x
  as_float _ = none

  abbrev pub as_bool : Option (FieldValue F) → Option Bool
  as_bool (some (bool_value b)) = some b
  as_bool _ = none

  -- An assignment to a field; `none` is nil.
  unfoldable pub assign : Field → Option (FieldValue F) → ZigbeeDevice F → ZigbeeDevice F
  assign device v zb = record zb { device = as_string v }
  assign name v zb = record zb { name = as_string v }
  assign power v zb = record zb { power = as_int v }
  assign endpoint v zb = record zb { endpoint = as_int v }
  assign link_quality v zb = record zb { link_quality = as_int v }
  assign battery_percentage v zb = record zb { battery_percentage = as_int v }
  assign temperature v zb = record zb { temperature = as_float v }
  assign humidity v zb = record zb { humidity = as_float v }
  assign pressure v zb = record zb { pressure = as_float v }
  assign voltage v zb = record zb { voltage = as_float v }
  assign contact v zb = record zb { contact = as_bool v }
  assign occupancy v zb = record zb { occupancy = as_bool v }
  assign water_leak v zb = record zb { water_leak = as_bool v }
  assign water_level v zb = record zb { water_level = as_int v }
  assign last_valve_open_duration v zb = record zb { last_valve_open_duration = as_int v }
  assign irrigation_start_time v zb = record zb { irrigation_start_time = as_int64 v }
  assign irrigation_end_time v zb = record zb { irrigation_end_time = as_int64 v }
  assign daily_irrigation_volume v zb = record zb { daily_irrigation_volume = as_int v }

  unfoldable pub change : Field → Change F → ZigbeeDevice F → ZigbeeDevice F
  change f keep zb = zb
  change f clear zb = assign f none zb
  change f (put v) zb = assign f (some v) zb

  -- The zero value.
  abbrev pub zero_device : ZigbeeDevice F
  zero_device = record {
    device = "";
    name = "";
    power = none;
    endpoint = none;
    link_quality = none;
    battery_percentage = none;
    temperature = none;
    humidity = none;
    pressure = none;
    voltage = none;
    contact = none;
    occupancy = none;
    water_leak = none;
    water_level = none;
    last_valve_open_duration = none;
    irrigation_start_time = none;
    irrigation_end_time = none;
    daily_irrigation_volume = none;
  }

  abbrev pub zero_message : TelemetryMessage F
  zero_message = record { time = ""; zb_received = [] }

infixl 5 ◌then_next◌
-- The first error of a document is the one that is returned, and what has been read is dropped.
abbrev pub ◌then_next◌ : {A B : Type 0} → Result A → (A → Result B) → Result B
ok a then_next f = f a
err e then_next f = err e

module _ {F : Type 0} (fl : Float64 F) where
  abbrev pub changed : Field → Result (Change F) → ZigbeeDevice F → Result (ZigbeeDevice F)
  changed f (ok c) zb = ok (change f c zb)
  changed f (err e) zb = err e

  -- One member of an object: a key without a field is skipped.
  unfoldable pub decode_member : Option Field → Json → ZigbeeDevice F → Result (ZigbeeDevice F)
  decode_member none v zb = ok zb
  decode_member (some f) v zb = changed f (read_json fl (type_of f) v) zb

  unfoldable pub decode_members : Members → ZigbeeDevice F → Result (ZigbeeDevice F)
  decode_members no_members zb = ok zb
  decode_members (member k v ms) zb =
      decode_member (field_of k) v zb then_next λ zb'. decode_members ms zb'

  -- An entry of the map is decoded into a new zero value.
  unfoldable pub decode_device : Json → Result (ZigbeeDevice F)
  decode_device null = ok zero_device
  decode_device (object ms) = decode_members ms zero_device
  decode_device _ = err type_error

  unfoldable pub decode_entries : Members → Dict (ZigbeeDevice F) → Result (Dict (ZigbeeDevice F))
  decode_entries no_members entries = ok entries
  decode_entries (member k v ms) entries =
      decode_device v then_next λ zb. decode_entries ms (insert k zb entries)

  abbrev pub set_time : String → TelemetryMessage F → TelemetryMessage F
  set_time s m = record m { time = s }

  unfoldable pub decode_time : Json → TelemetryMessage F → Result (TelemetryMessage F)
  decode_time null m = ok m
  decode_time (text s) m = ok (set_time s m)
  decode_time _ m = err type_error

  -- null makes the map nil; an object adds to the map that is there.
  unfoldable pub decode_zb_received : Json → TelemetryMessage F → Result (TelemetryMessage F)
  decode_zb_received null m = ok (record m { zb_received = [] })
  decode_zb_received (object ms) m =
      decode_entries ms m.zb_received then_next λ entries. ok (record m { zb_received = entries })
  decode_zb_received _ m = err type_error

  unfoldable pub decode_message_members : Members → TelemetryMessage F → Result (TelemetryMessage F)
  decode_message_members no_members m = ok m
  decode_message_members (member k v ms) m =
      (if is_key_of "Time" k
        then decode_time v m
        else if is_key_of "ZbReceived" k
        then decode_zb_received v m
        else ok m)
      then_next λ m'. decode_message_members ms m'

  -- A document that is null leaves the zero message.
  unfoldable pub decode_message : Json → Result (TelemetryMessage F)
  decode_message null = ok zero_message
  decode_message (object ms) = decode_message_members ms zero_message
  decode_message _ = err type_error

-- `*json.SyntaxError`
abbrev pub syntax_error : Error
syntax_error = errorf "invalid JSON"

-- `scan` is the scanner of `encoding/json`, which takes bytes to the document that they spell, if
-- they spell any.
module _ {F : Type 0} (fl : Float64 F) (scan : List ℕ → Option Json) where
  abbrev pub decoded : Option Json → Result (TelemetryMessage F)
  decoded none = err syntax_error
  decoded (some v) = decode_message fl v

  -- `json.Unmarshal(payload, &msg)`: the whole text is scanned before anything is filled in.
  unfoldable pub unmarshal_message : List ℕ → Result (TelemetryMessage F)
  unmarshal_message payload = decoded (scan payload)
