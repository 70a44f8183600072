-- ===== src/Examples/Database.antt =====
-- The theorems on internal/database, applied.
use mqtt_sensor_exporter.Common.{
  Result, List, ◌≡◌, refl, ◌≢◌, ◌↔◌, ◌⊎◌, String, true, none, some, [], ◌∷◌, ok,
}
use mqtt_sensor_exporter.Common.Decimal.{decimal}
use mqtt_sensor_exporter.Common.Dict.{lookup}
use mqtt_sensor_exporter.Common.Int.{ℤ, pos}
use mqtt_sensor_exporter.Kube.{Database}
use mqtt_sensor_exporter.Payload.{float, float_at, Payload, text, text_at}
use mqtt_sensor_exporter.Database.Gorm.{DbDevice, found}
use mqtt_sensor_exporter.Database.Gorm as Rows
use mqtt_sensor_exporter.Database.Kind.{kind}
use mqtt_sensor_exporter.Database.Text.{
  is_control, IsClean, sanitize_string, sanitize_string_of_IsClean,
}
use mqtt_sensor_exporter.Database.Store.Device.{refreshed, needs_save, ensure_device, settle_device}
use mqtt_sensor_exporter.Database.Store.Device.Settled.{IsCleanPayload, needs_save_again}
use mqtt_sensor_exporter.Database.Store.Rows.{
  moisture_row, valve_row, battery_rows, link_quality_rows,
}
use mqtt_sensor_exporter.Database.Store.Handlers.{battery_and_link}
use mqtt_sensor_exporter.Database.Store.Chain.Again.{SameTexts, ensure_device-store_chain}
use mqtt_sensor_exporter.Database.Store.Chain.{store_chain, create_measurement, create_logged}
use mqtt_sensor_exporter.Database.Store.Chain.Laws.{StoreOutcome, store_chain_outcome}
use mqtt_sensor_exporter.Database.Driver.{TlsConfig, empty_tls}
use mqtt_sensor_exporter.Database.Dsn.{
  build_dsn, dsn_head, ssl_mode_of, read_secret, get_secret_value, password_part, ca_config,
  client_config,
}
use mqtt_sensor_exporter.Database.Dsn.Laws.{is_lax}
use mqtt_sensor_exporter.Database.Dsn.Verified.{
  IsUsable, build_dsn-insecure_iff, build_dsn-IsUsable_iff,
}
use mqtt_sensor_exporter.Database.Manager.{
  init_handlers, init_handler, Connections, State, new_connection, connect, store_measurement,
}
use mqtt_sensor_exporter.Database.Manager.Ready.{new_connection-IsReady}
use mqtt_sensor_exporter.Database.Manager.Keys.{IsWellFormed, ConnectOutcome, connect_outcome}
use mqtt_sensor_exporter.Database.Manager.Storing.{ManagerOutcome, store_measurement_outcome}
use mqtt_sensor_exporter.Examples.World.{
  integers, Tables, memory, rows_of, memory-IsLawful, no_rows, cluster, driver, garden_db,
  same_order,
}

abbrev conns : Connections (Unit {0})
conns = ("iot/garden", new_connection garden_db tt) ∷ []

abbrev payload : Payload ℤ
payload = ("Name", text "Valve") ∷ []

store_measurement_outcome_example :
    ManagerOutcome integers memory rows_of memory-IsLawful
      (pos 1000)
      "valve-1"
      "valve"
      payload
      conns
      no_rows
      (store_measurement integers memory
        (pos 1000)
        (λ cs. cs)
        conns
        "valve-1"
        "valve"
        payload
        no_rows)
store_measurement_outcome_example =
    store_measurement_outcome integers memory rows_of memory-IsLawful (pos 1000) "valve-1" "valve"
      payload (λ cs. cs) same_order conns (new_connection-IsReady garden_db tt, tt) no_rows

abbrev soil_row : DbDevice → Rows.Row ℤ
soil_row d = Rows.moisture (moisture_row integers (pos 1000) d payload)

abbrev soil_extras : DbDevice → List (Rows.Row ℤ)
soil_extras = battery_and_link integers memory (pos 1000) payload

store_chain_outcome_example :
    StoreOutcome memory tt "moisture" "soil-1" payload rows_of "failed" soil_row soil_extras no_rows
      (store_chain memory "moisture" "failed" soil_row soil_extras "soil-1" payload tt no_rows)
store_chain_outcome_example =
    store_chain_outcome memory rows_of memory-IsLawful tt "moisture" "failed" soil_row soil_extras
      "soil-1" payload no_rows

abbrev empty : State Tables (Unit {0})
empty = record { world = no_rows; connections = [] }

abbrev kept : State Tables (Unit {0})
kept = record { world = no_rows; connections = conns }

kept-IsWellFormed : IsWellFormed conns
unfolding new_connection init_handlers init_handler kind lookup
kept-IsWellFormed = record {
  ready = (new_connection-IsReady garden_db tt, tt);
  keyed = (refl, tt);
  distinct = (refl, tt);
}

connect_outcome_example :
    let step = connect cluster driver garden_db kept in
    ConnectOutcome garden_db conns step.1 step.0.connections
connect_outcome_example = connect_outcome cluster driver garden_db kept

abbrev garden_dsn : String
garden_dsn = "host=db.example port=5432 dbname=garden user=exporter sslmode=require"

abbrev unverified : TlsConfig String String
unverified = record empty_tls { insecure_skip_verify = true }

garden_db-dsn :
    build_dsn cluster driver garden_db no_rows ≡ (no_rows, ok (garden_dsn, some unverified))
unfolding build_dsn password_part ca_config client_config ssl_mode_of dsn_head decimal
garden_db-dsn = refl

build_dsn-insecure_iff_example :
    (true ≡ true) ↔ ((garden_db.ca_secret ≡ none) × (is_lax garden_db ≡ true))
build_dsn-insecure_iff_example =
    build_dsn-insecure_iff cluster driver garden_db no_rows no_rows garden_dsn unverified
      garden_db-dsn

-- A CA secret with the default mode: the configuration that `crypto/tls` refuses.
abbrev trusting_db : Database
trusting_db = record garden_db { ca_secret = some "ca" }

abbrev nameless : TlsConfig String String
nameless = record empty_tls { root_cas = some "PEM" }

trusting_db-dsn :
    build_dsn cluster driver trusting_db no_rows ≡ (no_rows, ok (garden_dsn, some nameless))
unfolding build_dsn password_part ca_config client_config ssl_mode_of dsn_head read_secret
    get_secret_value lookup decimal
trusting_db-dsn = refl

build_dsn-IsUsable_iff_example : IsUsable nameless ↔ (
    ((trusting_db.ca_secret ≡ none) × (is_lax trusting_db ≡ true))
    ⊎ ((trusting_db.ca_secret ≢ none)
        × (ssl_mode_of trusting_db ≡ "verify-full")
        × (trusting_db.host ≢ "")))
build_dsn-IsUsable_iff_example =
    build_dsn-IsUsable_iff cluster driver trusting_db no_rows no_rows garden_dsn nameless
      trusting_db-dsn

valve-IsClean : IsClean "Valve"
unfolding is_control
valve-IsClean = (refl, (refl, (refl, (refl, (refl, tt)))))

payload-IsCleanPayload : IsCleanPayload payload
unfolding text_at lookup
payload-IsCleanPayload = record { clean_name = valve-IsClean; clean_short = tt; clean_ieee = tt }

-- The valve's next message measures something else.
abbrev next_payload : Payload ℤ
next_payload = ("Power", float (pos 1)) ∷ payload

same_texts : SameTexts payload next_payload
unfolding text_at lookup
same_texts = record { same_name = refl; same_short = refl; same_ieee = refl }

abbrev valve_rows : DbDevice → Rows.Row ℤ
valve_rows d = Rows.valve (valve_row integers (pos 1000) d payload)

abbrev first_run : Tables × Result (Unit {0})
first_run =
    store_chain memory "valve" "failed" valve_rows
      (battery_and_link integers memory (pos 1000) payload) "valve-1" payload tt no_rows

first_run_ok : first_run.1 ≡ ok tt
unfolding store_chain ensure_device settle_device create_measurement create_logged battery_rows
    link_quality_rows float_at lookup
first_run_ok = refl

ensure_device-store_chain_example :
    (d : DbDevice) × (ensure_device memory "valve" "valve-1" next_payload tt first_run.0
      ≡ (first_run.0, ok d))
    × (kept : List (Rows.Row ℤ)) × (rows_of first_run.0 tt ≡ valve_rows d ∷ kept)
ensure_device-store_chain_example =
    ensure_device-store_chain memory rows_of memory-IsLawful tt (λ w h d. refl) "valve" "valve-1"
      payload next_payload payload-IsCleanPayload same_texts "failed" valve_rows
      (battery_and_link integers memory (pos 1000) payload) no_rows first_run_ok

abbrev made : DbDevice
made = record {
  id = 1;
  device_id = "valve-1";
  sensor_type = "valve";
  device_name = "Valve";
  short_addr = "";
  ieee_addr = "";
}

abbrev tabbed : Payload ℤ
tabbed = ("Name", text "\t1") ∷ []

tabbed_name : text_at "Name" tabbed ≡ some "\t1"
unfolding text_at lookup
tabbed_name = refl

tabbed-IsClean : ¬ IsClean "\t1"
unfolding is_control
tabbed-IsClean h = cc h.0

needs_save_again_example :
    (needs_save tabbed made ≡ true) × (needs_save tabbed (refreshed tabbed made) ≡ true)
needs_save_again_example =
    needs_save_again tabbed made "\t1" tabbed_name tabbed-IsClean valve-IsClean

sanitize_string_of_IsClean_example : sanitize_string "Valve" ≡ "Valve"
sanitize_string_of_IsClean_example = sanitize_string_of_IsClean "Valve" valve-IsClean
