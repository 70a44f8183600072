-- ===== src/Watcher.antt =====
-- internal/watcher: the reconcilers and the predicates of the two resources that are watched.
use mqtt_sensor_exporter.Common.{Bool, true, false, not, Option, none, some, ok, err, Action}
use mqtt_sensor_exporter.Common.Int.{eqb_ℤ}
use mqtt_sensor_exporter.Kube.{Database}
use mqtt_sensor_exporter.Database.Gorm.{Lookup, found, not_found, failed}

-- The events of controller-runtime. An object that is not of the watched type is `none`.
pub data Event (A : Type 0) : Type 0 where
  created : Event A
  updated : Option A → Option A → Event A
  deleted : Event A
  generic : Event A

abbrev generation_changed : Option Database → Option Database → Bool
generation_changed none new = false
generation_changed (some old) none = false
generation_changed (some old) (some new) = not (eqb_ℤ old.generation new.generation)

-- `GetPredicate` of the database watcher.
unfoldable pub triggers_database : Event Database → Bool
triggers_database created = true
triggers_database (updated old new) = generation_changed old new
triggers_database deleted = false
triggers_database generic = false

-- `GetPredicate` of the bridge watcher.
unfoldable pub triggers_bridge : {A : Type 0} → Event A → Bool
triggers_bridge created = true
triggers_bridge (updated old new) = true
triggers_bridge deleted = false
triggers_bridge generic = false

module _ {W A : Type 0} where
  -- `if w.onConnect != nil`
  unfoldable pub call_on_connect : Option (A → Action W (Unit {0})) → A → Action W (Unit {0})
  call_on_connect none a w = (w, ok tt)
  call_on_connect (some f) a w = f a w

  -- `client.IgnoreNotFound` makes a missing resource no error.
  unfoldable pub reconcile_fetched :
      Option (A → Action W (Unit {0})) → Lookup A → Action W (Unit {0})
  reconcile_fetched on_connect not_found w = (w, ok tt)
  reconcile_fetched on_connect (failed e) w = (w, err e)
  reconcile_fetched on_connect (found a) w = call_on_connect on_connect a w

  -- `get` is `client.Get` for the request's name.
  unfoldable pub reconcile : (W → Lookup A) → Option (A → Action W (Unit {0})) → Action W (Unit {0})
  reconcile get on_connect w = reconcile_fetched on_connect (get w) w
