-- ===== src/Database/Kind.antt =====
-- The `switch sensorType` that the manager and the alerts service make: the four sensor types that
-- have a handler and a table, and every other text.
use mqtt_sensor_exporter.Common.{◌≡◌, String, Bool, true, false, ◌==◌, eq_iff, if◌then◌else◌, arith}

pub data Kind : Type 0 where
  moisture water_level valve room other : Kind

unfoldable pub kind : String → Kind
kind t =
    if t == "moisture"
    then moisture
    else if t == "water_level"
    then water_level
    else if t == "valve"
    then valve
    else if t == "room"
    then room
    else other

abbrev pub is_moisture : Kind → Bool
is_moisture moisture = true
is_moisture _ = false

abbrev pub is_water_level : Kind → Bool
is_water_level water_level = true
is_water_level _ = false

abbrev pub is_valve : Kind → Bool
is_valve valve = true
is_valve _ = false

abbrev pub is_room : Kind → Bool
is_room room = true
is_room _ = false

-- A type's own text is no other type's.
pub kind-moisture : (t : String) → (t == "moisture") ≡ is_moisture (kind t)
unfolding kind
kind-moisture t = ground arith

pub kind-water_level : (t : String) → (t == "water_level") ≡ is_water_level (kind t)
unfolding kind
kind-water_level t =
    ground (arith, eq_iff t "moisture", eq_iff t "water_level", eq_iff "moisture" "water_level")

pub kind-valve : (t : String) → (t == "valve") ≡ is_valve (kind t)
unfolding kind
kind-valve t = ground (
  arith,
  eq_iff t "moisture",
  eq_iff t "water_level",
  eq_iff t "valve",
  eq_iff "moisture" "valve",
  eq_iff "water_level" "valve",
)

pub kind-room : (t : String) → (t == "room") ≡ is_room (kind t)
unfolding kind
kind-room t = ground (
  arith,
  eq_iff t "moisture",
  eq_iff t "water_level",
  eq_iff t "valve",
  eq_iff t "room",
  eq_iff "moisture" "room",
  eq_iff "water_level" "room",
  eq_iff "valve" "room",
)
