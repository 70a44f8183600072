-- ===== src/Mqtt/Manager/Laws.antt =====
-- What a call of `Connect` leaves in the table of bridges, and what it has subscribed to.
use mqtt_sensor_exporter.Common.{
  ℕ, ◌≡◌, refl, sym, ◌∙◌, ap, String, Bool, true, false, ◌&&◌, Option, none, some, ◌==◌, eq_iff,
  eqb_iff, if◌then◌else◌, if_true, Result, ok, err, wrapped,
}
use mqtt_sensor_exporter.Common.Dict.{
  Dict, lookup, insert, erase, lookup-insert, lookup-erase, erase_of_absent,
}
use mqtt_sensor_exporter.Common.Int.{ℤ, pos}
use mqtt_sensor_exporter.Kube.{Cluster}
use mqtt_sensor_exporter.Mqtt.Types.{Bridge, BridgeConnection, Paho, State}
use mqtt_sensor_exporter.Mqtt.Options.{login_of, client_options}
use mqtt_sensor_exporter.Mqtt.Topics.{subscribe_to_topics, subscribe_to_topics-none}
use mqtt_sensor_exporter.Mqtt.Manager.{
  key, set_at, is_up, close_existing, on_connect, allocate, register, finish, attach, open_client,
  connect, disconnect, forget, is_connected, up_at,
}

-- After a success the bridge's key holds the address of the new connection, and after an error the
-- table is as it was.
abbrev pub TableOutcome : Bridge → ℕ → Dict ℕ → Result (Unit {0}) → Dict ℕ → Type 0
TableOutcome bridge address before (ok _) after =
    (j : String)
    → lookup j after
      ≡ (if key bridge.namespace bridge.name == j then some address else lookup j before)
TableOutcome bridge address before (err _) after = after ≡ before

pub set_at_same :
    {A : Type 0} (address : ℕ) (value : A) (at : ℕ → A) → set_at address value at address ≡ value
set_at_same address value at = rw ((eqb_iff address address).1 refl) refl

module _ {W C : Type 0} (paho : Paho W C) where
  bridges-finish :
      (early : Bool) (now : ℤ) (bridge : Bridge) (a : ℕ) (c : C) (s : State W C)
      → (finish paho early now bridge a c s).bridges
        ≡ insert (key bridge.namespace bridge.name) a s.bridges
  unfolding finish register on_connect
  bridges-finish true now bridge a c s = refl
  bridges-finish false now bridge a c s = refl

  attach_outcome :
      (early : Bool) (now : ℤ) (bridge : Bridge) (a : ℕ) (s : State W C) (r : Result C)
      → TableOutcome bridge a s.bridges
          (attach paho early now bridge a s r).1
          (attach paho early now bridge a s r).0.bridges
  unfolding attach
  attach_outcome early now bridge a s (err e) = refl
  attach_outcome early now bridge a s (ok c) = λ j.
      ap (lookup j) (bridges-finish early now bridge a c s)
      ∙ lookup-insert (key bridge.namespace bridge.name) j a s.bridges

  open_client_outcome :
      (early : Bool) (now : ℤ) (bridge : Bridge) (login : Result (String × String)) (s : State W C)
      → TableOutcome bridge s.next s.bridges
          (open_client paho early now bridge login s).1
          (open_client paho early now bridge login s).0.bridges
  unfolding open_client allocate
  open_client_outcome early now bridge (err e) s = refl
  open_client_outcome early now bridge (ok login) s = attach_outcome early now bridge s.next _ _

  -- In whatever order the handler runs: after a success of `Connect` the bridge's key holds the new
  -- connection and every other key what it held; after an error the table is as it was, with the
  -- old connection still in it.
  pub connect_table :
      (cluster : Cluster W) (early : Bool) (now : ℤ) (bridge : Bridge) (s : State W C)
      → TableOutcome bridge s.next s.bridges
          (connect paho cluster early now bridge s).1
          (connect paho cluster early now bridge s).0.bridges
  unfolding connect close_existing
  connect_table cluster early now bridge s =
      open_client_outcome early now bridge _
        (close_existing paho (key bridge.namespace bridge.name) s)

  -- `Disconnect` forgets the bridge under its key, and no other.
  pub lookup-disconnect_bridge :
      (namespace name j : String) (s : State W C)
      → lookup j (disconnect paho namespace name s).bridges
        ≡ (if key namespace name == j then none else lookup j s.bridges)
  unfolding disconnect
  lookup-disconnect_bridge namespace name j s =
      ap (lookup j) (go (lookup (key namespace name) s.bridges) refl)
      ∙ lookup-erase (key namespace name) j s.bridges
    where
      go :
          (o : Option ℕ)
          → lookup (key namespace name) s.bridges ≡ o
          → (forget paho (key namespace name) o s).bridges ≡ erase (key namespace name) s.bridges
      go none e = sym (erase_of_absent (key namespace name) s.bridges e)
      go (some a) e = refl

  module _ (cluster : Cluster W) (now : ℤ) (bridge : Bridge) (login : String × String)
      (s : State W C) (w : W) (c : C) where
    -- The state when the client has connected.
    abbrev opened : State W C
    opened =
        record (allocate paho bridge (close_existing paho (key bridge.namespace bridge.name) s)) {
          world = w;
        }

    abbrev closed : State W C
    closed = close_existing paho (key bridge.namespace bridge.name) s

    module _ (logged : login_of cluster closed.world bridge bridge.credentials ≡ ok login)
        (made : paho.connect_client closed.world (client_options bridge login) ≡ (w, ok c)) where
      connect_of_success :
          (early : Bool)
          → connect paho cluster early now bridge s
            ≡ (finish paho early now bridge s.next c opened, ok tt)
      unfolding connect open_client attach close_existing allocate
      connect_of_success early =
          ap (λ r. open_client paho early now bridge r closed) logged
          ∙ ap
              (λ (step : W × Result C).
                attach paho early now bridge s.next
                  (record (allocate paho bridge closed) { world = step.0 })
                  (wrapped "failed to connect to MQTT broker" step.1))
              made

      -- The connection that `Connect` makes, before and after its client is put into it.
      abbrev blank : BridgeConnection C
      blank = record { bridge = bridge; mqtt_client = none; connected = false; last_seen = pos 0 }

      opened-blank : opened.at s.next ≡ blank
      unfolding allocate close_existing
      opened-blank = set_at_same s.next blank s.at

      late_world :
          (finish paho false now bridge s.next c opened).world
          ≡ subscribe_to_topics paho (some c) bridge.topics w
      unfolding finish register on_connect
      late_world =
          ap (λ (k : BridgeConnection C). subscribe_to_topics paho k.mqtt_client k.bridge.topics w)
            (set_at_same s.next _ opened.at)
          ∙ ap (λ (k : BridgeConnection C). subscribe_to_topics paho (some c) k.bridge.topics w)
              opened-blank

      early_world : (finish paho true now bridge s.next c opened).world ≡ w
      unfolding finish register on_connect
      early_world =
          ap (λ (k : BridgeConnection C). subscribe_to_topics paho k.mqtt_client k.bridge.topics w)
            opened-blank
          ∙ subscribe_to_topics-none paho bridge.topics w

      address_up :
          up_at paho (some s.next) (finish paho true now bridge s.next c opened)
          ≡ paho.client_connected w c
      unfolding finish register on_connect
      address_up =
          ap
            (λ (k : BridgeConnection C).
              k.connected
              && is_up paho (finish paho true now bridge s.next c opened).world k.mqtt_client)
            (set_at_same s.next _ (on_connect paho now s.next opened).at)
          ∙ ap (λ v. paho.client_connected v c) early_world

      early_up :
          is_connected paho bridge.namespace bridge.name
            (finish paho true now bridge s.next c opened)
          ≡ paho.client_connected w c
      unfolding is_connected
      early_up =
          let end = finish paho true now bridge s.next c opened in
          let k = key bridge.namespace bridge.name in
          ap (λ o. up_at paho o end)
            (ap (lookup k) (bridges-finish true now bridge s.next c opened)
              ∙ lookup-insert k k s.next opened.bridges
              ∙ if_true (k == k) _ _ ((eq_iff k k).1 refl))
          ∙ address_up

      -- A `Connect` whose client connects succeeds, whenever its handler runs. If the handler runs
      -- after the client has been put into the connection, the bridge's sensor topics are
      -- subscribed to; if it runs before, nothing is, and still `IsConnected` says what the client
      -- says.
      pub connect_order :
          ((connect paho cluster false now bridge s).0.world
            ≡ subscribe_to_topics paho (some c) bridge.topics w)
          × ((connect paho cluster true now bridge s).0.world ≡ w)
          × (is_connected paho bridge.namespace bridge.name
                (connect paho cluster true now bridge s).0
              ≡ paho.client_connected w c)
      connect_order = (
        ap (λ (r : State W C × Result (Unit {0})). r.0.world) (connect_of_success false)
            ∙ late_world,
        ap (λ (r : State W C × Result (Unit {0})). r.0.world) (connect_of_success true)
            ∙ early_world,
        ap
              (λ (r : State W C × Result (Unit {0})).
                is_connected paho bridge.namespace bridge.name r.0)
              (connect_of_success true)
            ∙ early_up,
      )
