-- ===== src/Database/Handles/Reached.antt =====
-- The states that the manager's calls reach, and the handles that were given out on the way.
use mathlib.Core.List.{Memᴰ}
use mqtt_sensor_exporter.Common.{
  ◌≡◌, refl, sym, ◌∙◌, ap, String, Bool, true, false, not, Option, none, some, [], ◌∷◌, ◌==◌,
  if_true, if_false, eq_iff, find, some_inj, Result, ok, err,
}
use mqtt_sensor_exporter.Common.Dict.{Dict, lookup, NodupKeys}
use mqtt_sensor_exporter.Common.Order.{IsOrder, Memᴰ-Permᴰ, find-eq-some}
use mqtt_sensor_exporter.Kube.{Cluster}
use mqtt_sensor_exporter.Database.Driver.{Driver}
use mqtt_sensor_exporter.Database.Manager.{
  Connection, Connections, State, supports, new_manager, connect, db_of, find_connection,
  get_db_for_sensor_type,
}
use mqtt_sensor_exporter.Database.Manager.Keys.{
  key_of_database, IsWellFormed, ConnectOutcome, connect_outcome, connect-IsWellFormed,
  disconnect-IsWellFormed, lookup-disconnect,
}
use mqtt_sensor_exporter.Database.Handles.{
  IsPooled, IsLive, Step, connect_database, disconnect_database, use_pools, Runs, start, then_step,
  any_call, spares,
}
use mqtt_sensor_exporter.Database.Handles.Closing.{connect-IsLive, disconnect-IsLive}

-- Where no key stands twice, an entry is what its key is looked up to.
lookup-Memᴰ :
    {V : Type 0} (k : String) (v : V) (m : Dict V)
    → NodupKeys m
    → Memᴰ (k, v) m
    → lookup k m ≡ some v
unfolding lookup
lookup-Memᴰ k v [] _ nowhere = elim nowhere [ ]
lookup-Memᴰ k v ((i, w) ∷ m) (new, distinct) (Memᴰ.head q) =
    if_true _ _ _ ((eq_iff i k).1 (ap (λ x. x.0) (sym q))) ∙ ap (λ x. some x.1) (sym q)
lookup-Memᴰ k v ((i, w) ∷ m) (new, distinct) (Memᴰ.tail there) =
    let found = lookup-Memᴰ k v m distinct there in
    if_false _ _ _ (is_other (i == k) (λ e. cc (new, found, (eq_iff i k).0 e))) ∙ found
  where
    is_other : (b : Bool) → (b ≡ true → ⊥) → b ≡ false
    is_other true h = absurd (h refl)
    is_other false h = refl

of_not : (b : Bool) → not b ≡ true → b ≡ false
of_not true h = sym h
of_not false h = refl

module _ {W H : Type 0} (is_open : W → H → Bool) where
  -- What holds in every state that the manager can reach.
  pub record IsSound (s : State W H) : Type 0 where
    pub live : IsLive is_open s
    pub well_formed : IsWellFormed s.connections

  pub new_manager-IsSound : (w : W) → IsSound (new_manager w)
  unfolding lookup
  new_manager-IsSound w = record {
    live = record { opened = λ k c f. cc f; apart = λ j k c d f g e. cc f };
    well_formed = record { ready = tt; keyed = tt; distinct = tt };
  }

module _ {W H Pool Cert Config : Type 0} (is_open : W → H → Bool) (cluster : Cluster W)
    (driver : Driver W H Pool Cert Config) where
  -- A handle that is open in every state that calls on other keys than its own can reach.
  abbrev pub HeldBy : String → State W H → H → Type 0
  HeldBy sensor_type s h =
      (k : String) × (conn : Connection H) × (lookup k s.connections ≡ some conn)
      × (supports sensor_type conn ≡ true)
      × ((t : State W H) → Runs is_open cluster driver (spares k) s t → is_open t.world h ≡ true)

module _ {W H Pool Cert Config : Type 0} (is_open : W → H → Bool) (cluster : Cluster W)
    (driver : Driver W H Pool Cert Config) (pooled : IsPooled is_open driver) where
  Step-IsLive :
      {o : Option String} {s t : State W H}
      → Step is_open cluster driver o s t
      → IsLive is_open s
      → IsLive is_open t
  Step-IsLive (connect_database s database) live =
      connect-IsLive is_open cluster driver pooled database s live
  Step-IsLive (disconnect_database s namespace name) live =
      disconnect-IsLive is_open cluster driver pooled namespace name s live
  Step-IsLive (use_pools s w keeps) live = record {
    opened = λ k c f. keeps c.db (live.opened k c f);
    apart = live.apart;
  }

  Step-IsWellFormed :
      {o : Option String} {s t : State W H}
      → Step is_open cluster driver o s t
      → IsWellFormed s.connections
      → IsWellFormed t.connections
  Step-IsWellFormed (connect_database s database) wf =
      connect-IsWellFormed cluster driver database s wf
  Step-IsWellFormed (disconnect_database s namespace name) wf =
      disconnect-IsWellFormed cluster driver namespace name s wf
  Step-IsWellFormed (use_pools s w keeps) wf = wf

  Runs-IsSound_from :
      {allowed : Option String → Bool} {s t : State W H}
      → IsSound is_open s
      → Runs is_open cluster driver allowed s t
      → IsSound is_open t
  Runs-IsSound_from sound start = sound
  Runs-IsSound_from sound (then_step r ok_call step) =
      let before = Runs-IsSound_from sound r in
      record {
        live = Step-IsLive step before.live;
        well_formed = Step-IsWellFormed step before.well_formed;
      }

  -- On a driver whose calls open and close pools as `IsPooled` says: from a new manager, after any
  -- calls of `Connect` and `Disconnect`, failing or not, and any use of the pools between them,
  -- every connection of the table has an open pool, which no other connection has; and the table
  -- is well formed: each connection has a handler for exactly the types that its database supports
  -- and stands, once, under the key of its database.
  pub Runs-IsSound :
      (w : W) (t : State W H)
      → Runs is_open cluster driver any_call (new_manager w) t
      → IsSound is_open t
  Runs-IsSound w t r = Runs-IsSound_from (new_manager-IsSound is_open w) r

  -- A call that spares a key leaves what stands under it.
  lookup-Step :
      (k : String) {o : Option String} {s t : State W H}
      → Step is_open cluster driver o s t
      → spares k o ≡ true
      → lookup k t.connections ≡ lookup k s.connections
  lookup-Step k (connect_database s database) spared =
      let run = connect cluster driver database s in
      go run.1 run.0.connections (connect_outcome cluster driver database s)
    where
      other : (key_of_database database == k) ≡ false
      other = of_not _ spared

      go :
          (r : Result (Unit {0})) (after : Connections H)
          → ConnectOutcome database s.connections r after
          → lookup k after ≡ lookup k s.connections
      go (ok _) after (h, same) = same k ∙ if_false _ _ _ other
      go (err e) after same = same k ∙ if_false _ _ _ other
  lookup-Step k (disconnect_database s namespace name) spared =
      lookup-disconnect cluster driver namespace name k s ∙ if_false _ _ _ (of_not _ spared)
  lookup-Step k (use_pools s w keeps) spared = refl

  lookup-Runs :
      (k : String) {s t : State W H}
      → Runs is_open cluster driver (spares k) s t
      → lookup k t.connections ≡ lookup k s.connections
  lookup-Runs k start = refl
  lookup-Runs k (then_step r spared step) = lookup-Step k step spared ∙ lookup-Runs k r

  -- On a driver whose calls open and close pools as `IsPooled` says: in every state that a manager
  -- can reach, and for every order in which the connections are visited, a handle that
  -- `GetDBForSensorType` returns is that of a connection that supports the type, and its pool
  -- stays open in every state that calls for other databases can then reach, though the manager's
  -- lock has been released.
  pub get_db_for_sensor_type-HeldBy :
      (visit : Connections H → Connections H) (w : W) (s : State W H) (sensor_type : String) (h : H)
      → IsOrder visit
      → Runs is_open cluster driver any_call (new_manager w) s
      → get_db_for_sensor_type visit sensor_type s.connections ≡ some h
      → HeldBy is_open cluster driver sensor_type s h
  unfolding get_db_for_sensor_type find_connection
  get_db_for_sensor_type-HeldBy visit w s sensor_type h order reached given =
      go (find (λ e. supports sensor_type e.1) (visit s.connections)) refl given
    where
      sound : IsSound is_open s
      sound = Runs-IsSound w s reached

      go :
          (found : Option (String × Connection H))
          → find (λ e. supports sensor_type e.1) (visit s.connections) ≡ found
          → db_of visit found ≡ some h
          → HeldBy is_open cluster driver sensor_type s h
      go none e q = cc q
      go (some (k, conn)) e q =
          let (m, fits) =
            find-eq-some (λ x. supports sensor_type x.1) (visit s.connections) (k, conn) e in
          let entry =
            lookup-Memᴰ k conn s.connections sound.well_formed.distinct
              (Memᴰ-Permᴰ (order s.connections) m) in
          (
            k,
            conn,
            entry,
            fits,
            λ t r.
                ap (is_open t.world) (sym (some_inj q))
                ∙ (Runs-IsSound_from sound r).live.opened k conn (lookup-Runs k r ∙ entry),
          )
