-- ===== src/Database/Manager/Keys.antt =====
-- What `Connect` and `Disconnect` do to the table of connections.
use mqtt_sensor_exporter.Common.{
  ◌≡◌, refl, sym, ◌∙◌, ap, String, Bool, true, false, Option, none, some, Option-cases, inl, inr,
  ◌==◌, if◌then◌else◌, All, Result, ok, err, and_next,
}
use mqtt_sensor_exporter.Common.Dict.{
  lookup, insert, erase, lookup-insert, lookup-erase, erase_of_absent, NodupKeys, erase-NodupKeys,
  insert-NodupKeys, All-erase, All-insert,
}
use mqtt_sensor_exporter.Kube.{Database, Cluster}
use mqtt_sensor_exporter.Database.Driver.{Driver}
use mqtt_sensor_exporter.Database.Manager.{
  Connection, Connections, State, new_connection, outside, drop_entry, drop_connection, drop_step,
  establish, register, connect, disconnect, key,
}
use mqtt_sensor_exporter.Database.Manager.Ready.{
  IsReady, new_connection-IsReady, new_connection-database,
}

abbrev pub key_of_database : Database → String
key_of_database database = key database.namespace database.name

-- Every entry has its handlers and stands under its database's key, and no key stands twice.
pub record IsWellFormed {H : Type 0} (conns : Connections H) : Type 0 where
  pub ready : All (λ e. IsReady e.1) conns
  pub keyed : All (λ e. e.0 ≡ key_of_database e.1.database) conns
  pub distinct : NodupKeys conns

erase-IsWellFormed :
    {H : Type 0} (k : String) (conns : Connections H)
    → IsWellFormed conns
    → IsWellFormed (erase k conns)
erase-IsWellFormed k conns h = record {
  ready = All-erase (λ e. IsReady e.1) k conns h.ready;
  keyed = All-erase (λ e. e.0 ≡ key_of_database e.1.database) k conns h.keyed;
  distinct = erase-NodupKeys k conns h.distinct;
}

insert-IsWellFormed :
    {H : Type 0} (database : Database) (h : H) (conns : Connections H)
    → IsWellFormed conns
    → IsWellFormed (insert (key_of_database database) (new_connection database h) conns)
insert-IsWellFormed database h conns wf = record {
  ready = All-insert (λ e. IsReady e.1) _ _ conns (new_connection-IsReady database h) wf.ready;
  keyed =
      All-insert (λ e. e.0 ≡ key_of_database e.1.database) _ _ conns
        (ap key_of_database (sym (new_connection-database database h))) wf.keyed;
  distinct = insert-NodupKeys _ _ conns wf.distinct;
}

-- What a call of `Connect` leaves under every key: the new connection after a success; after an
-- error nothing under the database's own key, not even the connection that was there before.
abbrev pub ConnectOutcome :
    {H : Type 0} → Database → Connections H → Result (Unit {0}) → Connections H → Type 0
ConnectOutcome {H} database before (ok _) after =
    (h : H) × ((j : String)
      → lookup j after ≡ (
          if key_of_database database == j
          then some (new_connection database h)
          else lookup j before))
ConnectOutcome database before (err _) after =
    (j : String)
    → lookup j after ≡ (if key_of_database database == j then none else lookup j before)

module _ {W H Pool Cert Config : Type 0} (cluster : Cluster W)
    (driver : Driver W H Pool Cert Config) where
  pub connections-drop_connection :
      (k : String) (s : State W H)
      → (drop_connection cluster driver k s).connections ≡ erase k s.connections
  unfolding drop_connection drop_entry
  connections-drop_connection k s = elim (Option-cases (lookup k s.connections)) [
    | inl e ↦ rw (e, drop_connection) (sym (erase_of_absent k s.connections e))
    | inr (conn, e) ↦ rw (e, drop_connection)
  ]

  -- The end of `connect`, from the result of `establish`.
  abbrev pub finished : Database → State W H → W × Result H → State W H × Result (Unit {0})
  finished database s (w, ok h) = (
    record {
      world = w;
      connections = insert (key_of_database database) (new_connection database h) s.connections;
    },
    ok tt,
  )
  finished database s (w, err e) = (record { world = w; connections = s.connections }, err e)

  pub connect_lem :
      (database : Database) (s : State W H)
      → let s₁ = drop_connection cluster driver (key_of_database database) s in
        connect cluster driver database s
        ≡ finished database s₁ (establish cluster driver database s₁.world)
  unfolding connect drop_step outside register
  connect_lem database s =
      let s₁ = drop_connection cluster driver (key_of_database database) s in
      go s₁ (establish cluster driver database s₁.world)
    where
      go :
          (t : State W H) (step : W × Result H)
          → and_next (record t { world = step.0 }, step.1) (register cluster driver database)
            ≡ finished database t step
      go t (w, ok h) = refl
      go t (w, err e) = refl

  -- The two facts about the end of `connect`, for every result and any state whose connections are
  -- the old ones without the database's key.
  finished-IsWellFormed :
      (database : Database) (t : State W H) (step : W × Result H)
      → IsWellFormed t.connections
      → IsWellFormed (finished database t step).0.connections
  finished-IsWellFormed database t (w, ok h) wf = insert-IsWellFormed database h t.connections wf
  finished-IsWellFormed database t (w, err e) wf = wf

  finished_outcome :
      (database : Database) (before : Connections H) (t : State W H) (step : W × Result H)
      → t.connections ≡ erase (key_of_database database) before
      → ConnectOutcome database before
          (finished database t step).1
          (finished database t step).0.connections
  finished_outcome database before t (w, ok h) e = (
    h,
    λ j.
        let k = key_of_database database in
        let new = new_connection database h in
        lookup-insert k j new t.connections
        ∙ ap (λ o. if k == j then some new else o) (ap (lookup j) e ∙ lookup-erase k j before)
        ∙ if_if (k == j) (some new) none (lookup j before),
  )
    where
      if_if :
          (b : Bool) (x y z : Option (Connection H))
          → (if b then x else if b then y else z) ≡ (if b then x else z)
      if_if true x y z = refl
      if_if false x y z = refl
  finished_outcome database before t (w, err x) e =
      λ j. ap (lookup j) e ∙ lookup-erase (key_of_database database) j before

  module _ (database : Database) (s : State W H) where
    abbrev connected : State W H × Result (Unit {0})
    connected = connect cluster driver database s

    abbrev dropped : State W H
    dropped = drop_connection cluster driver (key_of_database database) s

    dropped_connections : dropped.connections ≡ erase (key_of_database database) s.connections
    dropped_connections = connections-drop_connection (key_of_database database) s

    -- `Connect` keeps a well-formed table of connections well formed, whether or not it succeeds.
    pub connect-IsWellFormed : IsWellFormed s.connections → IsWellFormed connected.0.connections
    connect-IsWellFormed wf = rw (connect_lem database s) (
        finished-IsWellFormed database dropped (establish cluster driver database dropped.world)
          (rw dropped_connections (erase-IsWellFormed _ s.connections wf)))

    -- After a success the database's key holds the new connection, after an error it holds none,
    -- and no other key changes.
    pub connect_outcome : ConnectOutcome database s.connections connected.1 connected.0.connections
    connect_outcome = rw (connect_lem database s) (
        finished_outcome database s.connections dropped
          (establish cluster driver database dropped.world) dropped_connections)

  -- `Disconnect` keeps a well-formed table of connections well formed.
  pub disconnect-IsWellFormed :
      (namespace name : String) (s : State W H)
      → IsWellFormed s.connections
      → IsWellFormed (disconnect cluster driver namespace name s).connections
  unfolding disconnect
  disconnect-IsWellFormed namespace name s wf =
      rw connections-drop_connection (erase-IsWellFormed (key namespace name) s.connections wf)

  -- `Disconnect` forgets the connection under its key, and no other.
  pub lookup-disconnect :
      (namespace name j : String) (s : State W H)
      → lookup j (disconnect cluster driver namespace name s).connections
        ≡ (if key namespace name == j then none else lookup j s.connections)
  unfolding disconnect
  lookup-disconnect namespace name j s =
      rw connections-drop_connection (lookup-erase (key namespace name) j s.connections)
