-- ===== src/Examples/World.antt =====
-- A database in memory, a cluster with two devices, numbers that are integers, and a driver.
use mathlib.Core.List.{Permᴰ}
use mqtt_sensor_exporter.Common.{
  ℕ, suc, ◌≡◌, refl, sym, ◌∙◌, ap, String, false, Option, none, some, List, [], ◌∷◌, ◌++◌, ◌==◌,
  eq_iff, if◌then◌else◌, find, errorf, Result, ok, err, ok_inj,
}
use mqtt_sensor_exporter.Common.Dict.{Dict}
use mqtt_sensor_exporter.Common.Int.{ℤ, pos, negsuc, ◌+ℤ◌, ltb_ℤ, eqb_ℤ}
use mqtt_sensor_exporter.Common.Order.{IsOrder, find-eq-some, find-head}
use mqtt_sensor_exporter.Float.{Float64, IsExact}
use mqtt_sensor_exporter.Kube.{Device, Database, Cluster}
use mqtt_sensor_exporter.Database.Gorm.{DbDevice, Row, Lookup, found, not_found, Gorm}
use mqtt_sensor_exporter.Database.Gorm.Laws.{IsLawful}
use mqtt_sensor_exporter.Database.Driver.{Driver}
use mqtt_sensor_exporter.Tasmota.Types.{ZigbeeDevice}
use mqtt_sensor_exporter.Tasmota.Telemetry.{Outside}

-- Numbers: integers, of which three texts are read.
abbrev pub integers : Float64 ℤ
integers = record {
  add = λ a b. a +ℤ b;
  gt = λ a b. ltb_ℤ b a;
  lt = ltb_ℤ;
  eq = eqb_ℤ;
  of_int = λ n. n;
  to_int = λ x. x;
  parse = λ s.
      if s == "5"
      then some (pos 5)
      else if s == "-2"
      then some (negsuc 1)
      else if s == "22"
      then some (pos 22)
      else none;
}

pub integers-IsExact : IsExact integers
integers-IsExact = record { to_int-of_int = λ n h. refl }

-- The tables, with one database behind the only handle; the newest version of a device comes first.
pub record Tables : Type 0 where
  pub next_id : ℕ
  pub devices : List DbDevice
  pub rows : List (Row ℤ)

abbrev empty_or_first : Option DbDevice → Lookup DbDevice
empty_or_first none = not_found
empty_or_first (some d) = found d

abbrev first : String → List DbDevice → Lookup DbDevice
first id devices = empty_or_first (find (λ (d : DbDevice). d.device_id == id) devices)

abbrev pub memory : Gorm Tables (Unit {0}) ℤ
memory = record {
  first_device = λ w h id. first id w.devices;
  create_device = λ w h d.
      let made = record d { id = w.next_id } in
      (record w { next_id = suc w.next_id; devices = made ∷ w.devices }, ok made);
  save_device = λ w h d. (record w { devices = d ∷ w.devices }, ok tt);
  create = λ w h r. (record w { rows = w.rows ++ r ∷ [] }, ok tt);
}

abbrev pub rows_of : Tables → Unit {0} → List (Row ℤ)
rows_of w h = w.rows

first-cons :
    (d : DbDevice) (devices : List DbDevice) (id : String)
    → d.device_id ≡ id
    → first id (d ∷ devices) ≡ found d
first-cons d devices id e =
    ap empty_or_first
      (find-head (λ (x : DbDevice). x.device_id == id) d devices ((eq_iff d.device_id id).1 e))

pub memory-IsLawful : IsLawful memory rows_of
memory-IsLawful = record {
  rows-create = λ w h r e. refl;
  rows-create_err = λ w h r x e. cc e;
  rows-create_device = λ w h d. refl;
  rows-save_device = λ w h d. refl;
  first_device-device_id = λ w h id d e. named (find _ w.devices) w.devices id d refl e;
  create_device-fields = λ w h d d' e. made_fields w d d' (ok_inj e);
  first_device-create_device = λ w h d d' absent e.
      first-cons (record d { id = w.next_id }) w.devices d.device_id refl ∙ ap found (ok_inj e);
  first_device-save_device = λ w h d old e same made. first-cons d w.devices d.device_id refl;
  first_device-create = λ w h r id. refl;
}
  where
    found_inj : {x y : DbDevice} → found x ≡ found y → x ≡ y
    found_inj e = cc

    made_fields :
        (w : Tables) (d d' : DbDevice)
        → record d { id = w.next_id } ≡ d'
        → d' ≡ record d { id = d'.id }
    made_fields w d d' e = rw (sym e) refl

    named :
        (o : Option DbDevice) (devices : List DbDevice) (id : String) (d : DbDevice)
        → find (λ (x : DbDevice). x.device_id == id) devices ≡ o
        → empty_or_first o ≡ found d
        → d.device_id ≡ id
    named none devices id d e f = cc f
    named (some x) devices id d e f =
        let (m, test) = find-eq-some (λ (y : DbDevice). y.device_id == id) devices x e in
        sym (ap (λ (y : DbDevice). y.device_id) (found_inj f)) ∙ (eq_iff x.device_id id).0 test

abbrev pub no_rows : Tables
no_rows = record { next_id = 1; devices = []; rows = [] }

-- Two devices: a valve with a correction, and one with an alert.
abbrev pub valve_1 : Device
valve_1 = record {
  name = "valve-1";
  friendly_name = "Valve";
  ieee_addr = "0x00158d";
  sensor_type = "valve";
  location = "garden";
  room = "";
  disabled = false;
  corrections = some (("power", "5") ∷ []);
  alert_condition = none;
  short_addr = "0x1A2B";
}

abbrev pub soil_1 : Device
soil_1 = record {
  name = "soil-1";
  friendly_name = "Soil";
  ieee_addr = "0x00158e";
  sensor_type = "moisture";
  location = "garden";
  room = "";
  disabled = false;
  corrections = none;
  alert_condition = some (record { measurement = "Temperature"; operator = "above"; value = "5" });
  short_addr = "0x1A2C";
}

abbrev pub garden : List Device
garden = valve_1 ∷ soil_1 ∷ []

abbrev secrets : String → Result (Dict String)
secrets name = if name == "ca" then ok (("ca.crt", "PEM") ∷ []) else err (errorf "secret not found")

abbrev pub cluster : {W : Type 0} → Cluster W
cluster = record {
  list_devices = λ w namespace. ok garden;
  list_all_devices = λ w. ok garden;
  get_secret = λ w namespace name. secrets name;
}

-- A driver whose pools, certificates and configurations are texts.
abbrev pub driver : {W : Type 0} → Driver W (Unit {0}) String String String
driver = record {
  append_certs = λ pem. some pem;
  key_pair = λ cert_pem key_pem. ok cert_pem;
  parse_config = λ dsn. ok dsn;
  open_plain = λ w dsn. (w, ok tt);
  open_tls = λ w config tls. (w, ok tt);
  sql_db = λ w h. ok tt;
  close = λ w h. w;
  set_max_open_conns = λ w h n. w;
  set_max_idle_conns = λ w h n. w;
  run_migrations = λ w h types. (w, ok tt);
}

abbrev pub garden_db : Database
garden_db = record {
  namespace = "iot";
  name = "garden";
  generation = pos 1;
  host = "db.example";
  port = pos 5432;
  database = "garden";
  username = "exporter";
  password_secret = none;
  ssl_mode = "";
  ca_secret = none;
  client_cert_secret = none;
  max_connections = none;
  min_connections = none;
  supported_sensor_types = "valve" ∷ "moisture" ∷ [];
}

-- A message from the valve.
abbrev pub valve_report : ZigbeeDevice ℤ
valve_report = record {
  device = "0x1A2B";
  name = "Valve";
  power = some (pos 1);
  endpoint = some (pos 1);
  link_quality = some (pos 80);
  battery_percentage = some (pos 95);
  temperature = none;
  humidity = none;
  pressure = none;
  voltage = none;
  contact = none;
  occupancy = none;
  water_leak = none;
  water_level = none;
  last_valve_open_duration = some (pos 60);
  irrigation_start_time = none;
  irrigation_end_time = none;
  daily_irrigation_volume = some (pos 12);
}

abbrev pub outside : Outside Tables (Unit {0}) ℤ
outside = record {
  float64 = integers;
  gorm = memory;
  cluster = cluster;
  now = pos 1000;
  visit = λ conns. conns;
  visit_devices = λ devices. devices;
}

pub same_order : {A : Type 0} → IsOrder (λ (xs : List A). xs)
same_order [] = Permᴰ.nil
same_order (x ∷ xs) = Permᴰ.cons refl (same_order xs)
