-- ===== src/Examples/Json.antt =====
-- A device of a message, decoded by the tags of its fields.
use mqtt_sensor_exporter.Common.{◌≡◌, refl, ok, err, some}
use mqtt_sensor_exporter.Common.Int.{pos}
use mqtt_sensor_exporter.Common.Decimal.Read.{read_int, read_from}
use mqtt_sensor_exporter.Json.Value.{Members, null, number, text, object, no_members, member}
use mqtt_sensor_exporter.Tasmota.Tags.{field_of, is_key_of, read_json, parse_int, type_error}
use mqtt_sensor_exporter.Tasmota.Decode.{
  zero_device, decode_member, decode_members, decode_device, assign, change,
}
use mqtt_sensor_exporter.Tasmota.Decode.Spec.{DecodeOutcome}
use mqtt_sensor_exporter.Tasmota.Decode.Laws.{decode_device_outcome}
use mqtt_sensor_exporter.Examples.World.{integers}

-- A field under two spellings of its key, and a key that no field has.
abbrev mixed : Members
mixed = member "POWER" null (
    member "power" (number "1")
      (member "EF00/0202" (number "2") (member "Level" (text "x") no_members)))

read_mixed :
    decode_device integers (object mixed)
    ≡ ok (record zero_device { power = some (pos 1); water_level = some (pos 2) })
unfolding decode_device decode_members decode_member field_of is_key_of read_json parse_int assign
    change read_int read_from
read_mixed = refl

-- A fraction for a whole number.
fraction_refused :
    decode_device integers (object (member "power" (number "1.5") no_members)) ≡ err type_error
unfolding decode_device decode_members decode_member field_of is_key_of read_json parse_int assign
    change read_int read_from
fraction_refused = refl

decode_device_outcome_example : DecodeOutcome integers mixed (decode_device integers (object mixed))
decode_device_outcome_example = decode_device_outcome integers mixed
