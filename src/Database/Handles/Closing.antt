-- ===== src/Database/Handles/Closing.antt =====
-- `Connect` and `Disconnect` and the pools of the connections that stay in the table.
use mathlib.Core.Path.{subst}
use mqtt_sensor_exporter.Common.{
  ◌≡◌, ◌≢◌, refl, sym, ◌∙◌, ap, ◌⊎◌, inl, inr, String, Bool, true, false, Option, none, some, ◌==◌,
  eq_iff, if_true, if◌then◌else◌, List, Result, ok, err, some_inj,
}
use mqtt_sensor_exporter.Common.Dict.{lookup, insert, erase, lookup-insert, lookup-erase}
use mqtt_sensor_exporter.Kube.{Database, Cluster}
use mqtt_sensor_exporter.Database.Driver.{Driver}
use mqtt_sensor_exporter.Database.Manager.{
  Connection, State, new_connection, closed, drop_entry, drop_connection, establish, connect,
  disconnect, key,
}
use mqtt_sensor_exporter.Database.Manager.Ready.{new_connection-db}
use mqtt_sensor_exporter.Database.Manager.Keys.{key_of_database, finished, connect_lem}
use mqtt_sensor_exporter.Database.Handles.{IsPooled, IsLive}
use mqtt_sensor_exporter.Database.Handles.Opening.{opening, Established, establish-Established}

-- An entry that is there without a key was there before, under another key.
lookup-erase-some :
    {V : Type 0} (k j : String) (m : List (String × V)) (v : V)
    → lookup j (erase k m) ≡ some v
    → (lookup j m ≡ some v) × ((k == j) ≡ false)
lookup-erase-some {V} k j m v e = go (k == j) (lookup j m) (sym (lookup-erase k j m) ∙ e)
  where
    go : (b : Bool) (o : Option V) → (if b then none else o) ≡ some v → (o ≡ some v) × (b ≡ false)
    go true o q = cc
    go false o q = (q, refl)

-- An entry after an assignment is the new one or an old one.
lookup-insert-some :
    {V : Type 0} (k j : String) (new : V) (m : List (String × V)) (v : V)
    → lookup j (insert k new m) ≡ some v
    → ((k ≡ j) × (v ≡ new)) ⊎ (lookup j m ≡ some v)
lookup-insert-some {V} k j new m v e =
    go (k == j) ((eq_iff k j).0) (lookup j m) (sym (lookup-insert k j new m) ∙ e)
  where
    go :
        (b : Bool)
        → (b ≡ true → k ≡ j)
        → (o : Option V) → (if b then some new else o) ≡ some v
        → ((k ≡ j) × (v ≡ new)) ⊎ (o ≡ some v)
    go true same o q = inl (same refl, sym (some_inj q))
    go false same o q = inr q

module _ {W H : Type 0} where
  -- What becomes of a handle that `Connect` has opened.
  abbrev pub Placed : Database → H → State W H → Result (Unit {0}) → Type 0
  Placed database h t (ok _) =
      lookup (key_of_database database) t.connections ≡ some (new_connection database h)
  Placed database h t (err _) =
      (j : String) (c : Connection H) → lookup j t.connections ≡ some c → c.db ≢ h

module _ {W H Pool Cert Config : Type 0} (is_open : W → H → Bool) (cluster : Cluster W)
    (driver : Driver W H Pool Cert Config) (pooled : IsPooled is_open driver) where
  closed-Keeps :
      (w : W) (h j : H) (r : Result (Unit {0}))
      → j ≢ h
      → is_open w j ≡ true
      → is_open (closed cluster driver w h r) j ≡ true
  closed-Keeps w h j (ok _) other o = pooled.closes_one w h j other o
  closed-Keeps w h j (err _) other o = o

  pub drop_connection-IsLive :
      (k : String) (s : State W H)
      → IsLive is_open s
      → IsLive is_open (drop_connection cluster driver k s)
  unfolding drop_connection drop_entry
  drop_connection-IsLive k s live = go (lookup k s.connections) refl
    where
      go :
          (o : Option (Connection H))
          → lookup k s.connections ≡ o
          → IsLive is_open (drop_entry cluster driver k o s)
      go none e = live
      go (some conn) e = record {
        opened = λ j c f.
            let (f', other) = lookup-erase-some k j s.connections c f in
            closed-Keeps s.world conn.db c.db (driver.sql_db s.world conn.db)
              (λ same. differs j other (live.apart j k c conn f' e same)) (live.opened j c f');
        apart = λ j l c d f g same.
            live.apart j l c d (lookup-erase-some k j s.connections c f).0
              (lookup-erase-some k l s.connections d g).0 same;
      }
        where
          differs : (j : String) → (k == j) ≡ false → j ≡ k → ⊥
          differs j other same = cc (other, (eq_iff k j).1 (sym same))

  -- The end of `Connect`, for every result of the part that opens the connection.
  finished-IsLive :
      (database : Database) (s : State W H) (first step : W × Result H)
      → IsLive is_open s
      → Established is_open s.world first step
      → IsLive is_open (finished cluster driver database s step).0
  finished-IsLive database s (w₁, err x) (w, err e) live (keeps, same) = record {
    opened = λ k c f. keeps c.db (live.opened k c f);
    apart = live.apart;
  }
  finished-IsLive database s (w₁, err x) (w, ok h) live (keeps, same) = cc same
  finished-IsLive database s (w₁, ok h) (w, err e) live (new, is_there, keeps, same) = record {
    opened = λ k c f. keeps c.db (live.opened k c f);
    apart = live.apart;
  }
  finished-IsLive database s (w₁, ok h) (w, ok x) live (new, is_there, keeps, same) =
      let k = key_of_database database in
      let conn = new_connection database x in
      record {
        opened = λ j c f. elim (lookup-insert-some k j conn s.connections c f) [
          | inl (_, q) ↦ rw (q, new_connection-db database x, same x refl) is_there
          | inr f' ↦ keeps c.db (live.opened j c f')
        ];
        apart = λ j l c d f g q. elim (lookup-insert-some k j conn s.connections c f) [
          | inl (at_j, is_c) ↦ elim (lookup-insert-some k l conn s.connections d g) [
            | inl (at_l, is_d) ↦ sym at_j ∙ at_l
            | inr g' ↦ absurd (stale l d g' (sym q ∙ ap (λ y. y.db) is_c))
          ]
          | inr f' ↦ elim (lookup-insert-some k l conn s.connections d g) [
            | inl (at_l, is_d) ↦ absurd (stale j c f' (q ∙ ap (λ y. y.db) is_d))
            | inr g' ↦ live.apart j l c d f' g' q
          ]
        ];
      }
    where
      stale :
          (j : String) (c : Connection H)
          → lookup j s.connections ≡ some c
          → c.db ≡ (new_connection database x).db
          → ⊥
      stale j c f q =
          let is_h = q ∙ new_connection-db database x ∙ same x refl in
          cc (ap (is_open s.world) is_h, live.opened j c f, new)

  pub connect-IsLive :
      (database : Database) (s : State W H)
      → IsLive is_open s
      → IsLive is_open (connect cluster driver database s).0
  connect-IsLive database s live =
      let t = drop_connection cluster driver (key_of_database database) s in
      rw (connect_lem cluster driver database s) (
        finished-IsLive database t (opening cluster driver database t.world)
          (establish cluster driver database t.world)
          (drop_connection-IsLive (key_of_database database) s live)
          (establish-Established is_open cluster driver pooled database t.world))

  pub disconnect-IsLive :
      (namespace name : String) (s : State W H)
      → IsLive is_open s
      → IsLive is_open (disconnect cluster driver namespace name s)
  unfolding disconnect
  disconnect-IsLive namespace name s live = drop_connection-IsLive (key namespace name) s live

  finished-Placed :
      (database : Database) (s : State W H) (h : H) (w₁ : W) (step : W × Result H)
      → IsLive is_open s
      → Established is_open s.world (w₁, ok h) step
      → let after = finished cluster driver database s step in
        (is_open after.0.world h ≡ true) × Placed database h after.0 after.1
  finished-Placed database s h w₁ (w, ok x) live (new, is_there, keeps, same) = (
    is_there,
    lookup-insert (key_of_database database) (key_of_database database) (new_connection database x)
          s.connections
        ∙ if_true _ _ _ ((eq_iff (key_of_database database) (key_of_database database)).1 refl)
        ∙ ap (λ y. some (new_connection database y)) (same x refl),
  )
  finished-Placed database s h w₁ (w, err e) live (new, is_there, keeps, same) =
      (is_there, λ j c f q. cc (ap (is_open s.world) q, live.opened j c f, new))

  -- On a driver whose calls open and close pools as `IsPooled` says, from a table whose
  -- connections have open pools, no two the same: when `Connect` gets a handle from the driver,
  -- the pool of this handle is open when it returns. After a success the handle is in the new
  -- connection of the database's key, after an error no connection of the table has it.
  pub connect_opened :
      (database : Database) (s : State W H) (h : H) (w₁ : W)
      → IsLive is_open s
      → opening cluster driver database
          (drop_connection cluster driver (key_of_database database) s).world
        ≡ (w₁, ok h)
      → let after = connect cluster driver database s in
        (is_open after.0.world h ≡ true) × Placed database h after.0 after.1
  connect_opened database s h w₁ live e =
      let t = drop_connection cluster driver (key_of_database database) s in
      rw (connect_lem cluster driver database s) (
        finished-Placed database t h w₁ (establish cluster driver database t.world)
          (drop_connection-IsLive (key_of_database database) s live)
          (subst
            (λ step. Established is_open t.world step (establish cluster driver database t.world)) e
            (establish-Established is_open cluster driver pooled database t.world)))
