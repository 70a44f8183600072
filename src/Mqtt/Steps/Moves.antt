-- ===== src/Mqtt/Steps/Moves.antt =====
-- The steps of a `Connect` keep the table of bridges well formed.
use mqtt_sensor_exporter.Common.{
  ℕ, ◌≡◌, ◌≢◌, refl, sym, ◌∙◌, ap, String, true, Bool-cases, inl, inr, none, some, some_inj, ◌==◌,
  eqb, eqb_iff, eq_iff, if◌then◌else◌, if_true, if_false, Error, Result, ok, err, wrapped, arith,
}
use mqtt_sensor_exporter.Common.Dict.{lookup, lookup-insert}
use mqtt_sensor_exporter.Common.Int.{ℤ}
use mqtt_sensor_exporter.Kube.{Cluster}
use mqtt_sensor_exporter.Mqtt.Types.{Bridge, BridgeConnection, Paho, State}
use mqtt_sensor_exporter.Mqtt.Options.{login_of, client_options}
use mqtt_sensor_exporter.Mqtt.Manager as Manager
use mqtt_sensor_exporter.Mqtt.Manager.{
  key, set_at, close_existing, on_connect, on_connection_lost, allocate, register, attach, connect,
  disconnect, forget,
}
use mqtt_sensor_exporter.Mqtt.Manager.Laws.{set_at_same}
use mqtt_sensor_exporter.Mqtt.Steps.{Opening, idle, busy, closed_for, opened_with}
use mqtt_sensor_exporter.Mqtt.Steps.Entries.{
  IsEntry, IsOpening, IsWellFormed, IsWellFormed-IsSame, set_at_new,
}

module _ {W C : Type 0} (paho : Paho W C) where
  pub open_client-IsWellFormed :
      (s : State W C) (bridge : Bridge) (w : W) (c : C)
      → IsWellFormed (idle s)
      → IsWellFormed (
          busy
            (record { bridge = bridge; address = s.next; client = c })
            (opened_with paho bridge w s))
  unfolding allocate close_existing
  open_client-IsWellFormed s bridge w c wf = record {
    entries = wider.entries;
    opening_new = λ o e. rw (← some_inj e) opening;
  }
    where
      wider : IsWellFormed (idle (opened_with paho bridge w s))
      wider =
          IsWellFormed-IsSame (idle s) (opened_with paho bridge w s) (omega arith)
            (set_at_new s.next _ s.at) (λ k a e. e) wf

      opening :
          IsOpening
            (opened_with paho bridge w s)
            (record { bridge = bridge; address = s.next; client = c })
      opening = record {
        new = omega arith;
        same_bridge = ap (λ (x : BridgeConnection C). x.bridge) (set_at_same s.next _ s.at);
      }

  -- What the assignments at the end of a `Connect` do to a connection of the memory.
  register-client :
      (now : ℤ) (bridge : Bridge) (a : ℕ) (c : C) (s : State W C) (x : ℕ)
      → (((register paho now bridge a c s).at x).bridge ≡ (s.at x).bridge)
        × ((s.at x).mqtt_client ≢ none → ((register paho now bridge a c s).at x).mqtt_client ≢ none)
  unfolding register
  register-client now bridge a c s x = elim (Bool-cases (eqb x a)) [
    | inl e ↦ let same : x ≡ a = (eqb_iff x a).0 e in rw (e, same) (refl, λ old p. cc p)
    | inr e ↦ rw e (refl, λ old. old)
  ]

  register-own :
      (now : ℤ) (bridge : Bridge) (a : ℕ) (c : C) (s : State W C)
      → ((register paho now bridge a c s).at a).mqtt_client ≢ none
  unfolding register
  register-own now bridge a c s p =
      ne (sym (ap (λ (x : BridgeConnection C). x.mqtt_client) (set_at_same a _ s.at)) ∙ p)
    where
      ne : some c ≢ none
      ne q = cc

  pub end_connect-IsWellFormed :
      (s : State W C) (o : Opening C) (now : ℤ)
      → IsWellFormed (busy o s)
      → IsWellFormed (idle (register paho now o.bridge o.address o.client s))
  end_connect-IsWellFormed s o now wf = record {
    entries = λ k a e.
        let split = sym (found_at k) ∙ e in
        elim (Bool-cases (key o.bridge.namespace o.bridge.name == k)) [
          | inl own ↦ new_entry k a own (sym (if_true _ _ _ own) ∙ split)
          | inr other ↦ old_entry k a (wf.entries k a (sym (if_false _ _ _ other) ∙ split))
        ];
    opening_new = λ p e. cc e;
  }
    where
      after : State W C
      after = register paho now o.bridge o.address o.client s

      mine : IsOpening s o
      mine = wf.opening_new o refl

      found_at :
          (k : String)
          → lookup k (register paho now o.bridge o.address o.client s).bridges ≡ (
              if key o.bridge.namespace o.bridge.name == k
              then some o.address
              else lookup k s.bridges)
      found_at k =
          unfold register in
          lookup-insert (key o.bridge.namespace o.bridge.name) k o.address s.bridges

      old_entry : (k : String) (a : ℕ) → IsEntry s k a → IsEntry after k a
      old_entry k a old =
          let (bridge_same, client) = register-client now o.bridge o.address o.client s a in
          record {
            allocated = unfold register in old.allocated;
            own_key = ap (λ (b : Bridge). key b.namespace b.name) bridge_same ∙ old.own_key;
            has_client = client old.has_client;
          }

      new_entry :
          (k : String) (a : ℕ)
          → (key o.bridge.namespace o.bridge.name == k) ≡ true
          → some o.address ≡ some a
          → IsEntry after k a
      new_entry k a own e =
          let here : o.address ≡ a = some_inj e in
          let (bridge_same, _) = register-client now o.bridge o.address o.client s o.address in
          rw (← here) (record {
            allocated = unfold register in mine.new;
            own_key =
                ap (λ (b : Bridge). key b.namespace b.name) (bridge_same ∙ mine.same_bridge)
                ∙ (eq_iff _ k).0 own;
            has_client = register-own now o.bridge o.address o.client s;
          })

  pub fail_connect-IsWellFormed :
      (cluster : Cluster W) (s : State W C) (bridge : Bridge) (now : ℤ) (e : Error)
      → (connect paho cluster true now bridge s).1 ≡ err e
      → IsWellFormed (idle s)
      → IsWellFormed (idle (connect paho cluster true now bridge s).0)
  unfolding connect Manager.open_client attach allocate close_existing
  fail_connect-IsWellFormed cluster s bridge now e r wf =
      go (login_of cluster (closed_for paho bridge s).world bridge bridge.credentials) r
    where
      unchanged : (w : W) → IsWellFormed (idle (record s { world = w }))
      unchanged w =
          IsWellFormed-IsSame (idle s) (record s { world = w }) (omega arith)
            (λ a _. record { bridge_same = refl; client_same = refl }) (λ k a p. p) wf

      attached :
          (t : State W C) (step : Result C)
          → IsWellFormed (idle t)
          → (attach paho true now bridge s.next t
              (wrapped "failed to connect to MQTT broker" step)).1
            ≡ err e
          → IsWellFormed (
              idle
                (attach paho true now bridge s.next t
                  (wrapped "failed to connect to MQTT broker" step)).0)
      attached t (ok c) good p = cc
      attached t (err x) good p = good

      go :
          (login : Result (String × String))
          → (Manager.open_client paho true now bridge login (closed_for paho bridge s)).1 ≡ err e
          → IsWellFormed
              (idle (Manager.open_client paho true now bridge login (closed_for paho bridge s)).0)
      go (err x) p = unchanged _
      go (ok login) p =
          let step =
            paho.connect_client (closed_for paho bridge s).world (client_options bridge login) in
          attached (opened_with paho bridge step.0 s) step.1
            (IsWellFormed-IsSame (idle s) (opened_with paho bridge step.0 s) (omega arith)
              (set_at_new s.next _ s.at) (λ k a q. q) wf)
            p
