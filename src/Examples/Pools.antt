-- ===== src/Examples/Pools.antt =====
-- The theorems on the open pools, applied to a driver that counts its pools.
use mqtt_sensor_exporter.Common.{
  ℕ, zero, suc, ◌≡◌, ◌≢◌, refl, ap, String, Bool, true, false, some, List, [], ◌∷◌, ◌++◌, length,
  Result, ok, err, errorf,
}
use mqtt_sensor_exporter.Common.Decimal.{decimal}
use mqtt_sensor_exporter.Common.Dict.{lookup, insert}
use mqtt_sensor_exporter.Common.Order.{same_elements}
use mqtt_sensor_exporter.Database.Kind.{kind}
use mqtt_sensor_exporter.Database.Driver.{Driver}
use mqtt_sensor_exporter.Database.Dsn.{
  build_dsn, dsn_head, ssl_mode_of, password_part, ca_config, client_config,
}
use mqtt_sensor_exporter.Database.Manager.{
  State, new_connection, init_handlers, init_handler, new_manager, outside, drop_step,
  drop_connection, drop_entry, build_step, parse_step, open_tls_step, open_db, configure_pool,
  get_sql_db, migrate, establish, register, connect, get_db_for_sensor_type, find_connection,
}
use mqtt_sensor_exporter.Database.Manager.Keys.{key_of_database}
use mqtt_sensor_exporter.Database.Handles.{
  IsPooled, Runs, start, then_step, connect_database, any_call,
}
use mqtt_sensor_exporter.Database.Handles.Opening.{opening}
use mqtt_sensor_exporter.Database.Handles.Closing.{Placed, connect_opened}
use mqtt_sensor_exporter.Database.Handles.Reached.{
  IsSound, Runs-IsSound, new_manager-IsSound, HeldBy, get_db_for_sensor_type-HeldBy,
}
use mqtt_sensor_exporter.Examples.World.{cluster, garden_db}

-- A handle is a position, and the world says for each position whether its pool is open.
unfoldable is_open : List Bool → ℕ → Bool
is_open [] h = false
is_open (b ∷ w) zero = b
is_open (b ∷ w) (suc h) = is_open w h

unfoldable close : List Bool → ℕ → List Bool
close [] h = []
close (b ∷ w) zero = false ∷ w
close (b ∷ w) (suc h) = b ∷ close w h

abbrev add_pool : List Bool → List Bool × Result ℕ
add_pool w = (w ++ true ∷ [], ok (length w))

-- The driver, by the result of its migrations.
abbrev pools : Result (Unit {0}) → Driver (List Bool) ℕ String String String
pools migrated = record {
  append_certs = λ pem. some pem;
  key_pair = λ cert_pem key_pem. ok cert_pem;
  parse_config = λ dsn. ok dsn;
  open_plain = λ w dsn. add_pool w;
  open_tls = λ w config tls. add_pool w;
  sql_db = λ w h. ok tt;
  close = close;
  set_max_open_conns = λ w h n. w;
  set_max_idle_conns = λ w h n. w;
  run_migrations = λ w h types. (w, migrated);
}

is_open_new : (w : List Bool) → is_open w (length w) ≡ false
unfolding is_open
is_open_new [] = refl
is_open_new (b ∷ w) = is_open_new w

is_open_added : (w : List Bool) → is_open (w ++ true ∷ []) (length w) ≡ true
unfolding is_open
is_open_added [] = refl
is_open_added (b ∷ w) = is_open_added w

is_open_kept : (w : List Bool) (j : ℕ) → is_open w j ≡ true → is_open (w ++ true ∷ []) j ≡ true
unfolding is_open
is_open_kept [] j o = cc o
is_open_kept (b ∷ w) zero o = o
is_open_kept (b ∷ w) (suc j) o = is_open_kept w j o

is_open-close :
    (w : List Bool) (h j : ℕ) → j ≢ h → is_open w j ≡ true → is_open (close w h) j ≡ true
unfolding is_open close
is_open-close [] h j other o = o
is_open-close (b ∷ w) zero zero other o = absurd (other refl)
is_open-close (b ∷ w) zero (suc j) other o = o
is_open-close (b ∷ w) (suc h) zero other o = o
is_open-close (b ∷ w) (suc h) (suc j) other o = is_open-close w h j (λ e. other (ap suc e)) o

pools-IsPooled : (migrated : Result (Unit {0})) → IsPooled is_open (pools migrated)
pools-IsPooled migrated = record {
  opens_plain = λ w dsn. (is_open_new w, is_open_added w, is_open_kept w);
  opens_tls = λ w config tls. (is_open_new w, is_open_added w, is_open_kept w);
  closes_one = is_open-close;
  limits_open = λ w h n j o. o;
  limits_idle = λ w h n j o. o;
  migrates = λ h types w j o. o;
}

abbrev works : Result (Unit {0})
works = ok tt

abbrev fails : Result (Unit {0})
fails = err (errorf "no table")

abbrev connected : State (List Bool) ℕ
connected = (connect cluster (pools works) garden_db (new_manager [])).0

connected_run : Runs is_open cluster (pools works) any_call (new_manager []) connected
connected_run = then_step start refl (connect_database (new_manager []) garden_db)

-- The database is connected to a second time, which closes the first pool.
abbrev again : State (List Bool) ℕ
again = (connect cluster (pools works) garden_db connected).0

Runs-IsSound_example : IsSound is_open again
Runs-IsSound_example =
    Runs-IsSound is_open cluster (pools works) (pools-IsPooled works) [] again
      (then_step connected_run refl (connect_database connected garden_db))

connected_db : get_db_for_sensor_type (λ cs. cs) "moisture" connected.connections ≡ some 0
unfolding get_db_for_sensor_type find_connection connect drop_step drop_connection drop_entry lookup
    outside establish build_step build_dsn password_part ca_config client_config ssl_mode_of
    dsn_head decimal open_db parse_step open_tls_step configure_pool get_sql_db migrate register
    new_connection init_handlers init_handler kind insert
connected_db = refl

get_db_for_sensor_type-HeldBy_example : HeldBy is_open cluster (pools works) "moisture" connected 0
get_db_for_sensor_type-HeldBy_example =
    get_db_for_sensor_type-HeldBy is_open cluster (pools works) (pools-IsPooled works) (λ cs. cs) []
      connected "moisture" 0 same_elements connected_run connected_db

-- The migrations fail: the pool is open, and no connection has it.
abbrev failed : State (List Bool) ℕ × Result (Unit {0})
failed = connect cluster (pools fails) garden_db (new_manager [])

failed_open :
    opening cluster
      (pools fails)
      garden_db
      (drop_connection cluster (pools fails) (key_of_database garden_db) (new_manager [])).world
    ≡ (true ∷ [], ok 0)
unfolding drop_connection drop_entry lookup build_step build_dsn password_part ca_config
    client_config ssl_mode_of dsn_head decimal open_db parse_step open_tls_step
failed_open = refl

connect_opened_example : (is_open failed.0.world 0 ≡ true) × Placed garden_db 0 failed.0 failed.1
connect_opened_example =
    connect_opened is_open cluster (pools fails) (pools-IsPooled fails) garden_db (new_manager []) 0
      (true ∷ []) (new_manager-IsSound is_open []).live failed_open
