-- ===== src/Mqtt/Steps/Resubscribe.antt =====
-- What happens to a bridge's subscriptions when its client reconnects.
use mqtt_sensor_exporter.Common.{
  ℕ, ◌≡◌, refl, ◌∙◌, ap, String, true, false, ◌&&◌, some, List, [], ◌∷◌, select, Option-cases,
  Bool-cases, inl, inr,
}
use mqtt_sensor_exporter.Common.Dict.{lookup}
use mqtt_sensor_exporter.Common.Int.{ℤ}
use mqtt_sensor_exporter.Kube.{Cluster}
use mqtt_sensor_exporter.Mqtt.Types.{Bridge, TopicSubscription, BridgeConnection, Paho, State}
use mqtt_sensor_exporter.Mqtt.Topics.{
  is_sensor_topic, qos_of, subscribe_to_topic, subscribe_to_topics,
}
use mqtt_sensor_exporter.Mqtt.Manager.{
  key, on_connect, on_connection_lost, is_connected, up_at, is_up,
}
use mqtt_sensor_exporter.Mqtt.Manager.Laws.{set_at_same}
use mqtt_sensor_exporter.Mqtt.Steps.{Machine, Runs, IsInitial}
use mqtt_sensor_exporter.Mqtt.Steps.Invariant.{Runs-IsWellFormed}

module _ {W C : Type 0} (paho : Paho W C)
    (stays : (w : W) (c : C) (topic : String) (qos : ℕ)
      → paho.client_connected (paho.subscribe w c topic qos).0 c ≡ paho.client_connected w c) where
  -- One call of `Subscribe` for each topic, in order.
  abbrev pub subscribe_each : C → List TopicSubscription → W → W
  subscribe_each c [] w = w
  subscribe_each c (t ∷ topics) w =
      subscribe_each c topics (paho.subscribe w c t.topic (qos_of t.qos)).0

  connected-subscribe_each :
      (c : C) (topics : List TopicSubscription) (w : W)
      → paho.client_connected (subscribe_each c topics w) c ≡ paho.client_connected w c
  connected-subscribe_each c [] w = refl
  connected-subscribe_each c (t ∷ topics) w =
      connected-subscribe_each c topics (paho.subscribe w c t.topic (qos_of t.qos)).0
      ∙ stays w c t.topic (qos_of t.qos)

  subscribe_to_topics_each :
      (c : C) (topics : List TopicSubscription) (w : W)
      → paho.client_connected w c ≡ true
      → subscribe_to_topics paho (some c) topics w
        ≡ subscribe_each c (select is_sensor_topic topics) w
  unfolding subscribe_to_topics subscribe_to_topic
  subscribe_to_topics_each c [] w up = refl
  subscribe_to_topics_each c (t ∷ topics) w up = elim (Bool-cases (is_sensor_topic t)) [
    | inl e ↦
        rw (e, up)
          (subscribe_to_topics_each c topics (paho.subscribe w c t.topic (qos_of t.qos)).0
            (stays w c t.topic (qos_of t.qos) ∙ up))
    | inr e ↦ rw e (subscribe_to_topics_each c topics w up)
  ]

  -- The connection at an address, when its client has been lost and then connects again.
  module _ (now : ℤ) (a : ℕ) (c : C) (s : State W C) (client : (s.at a).mqtt_client ≡ some c)
      (up : paho.client_connected s.world c ≡ true) where
    abbrev lost : State W C
    lost = on_connection_lost paho a s

    abbrev again : State W C
    again = on_connect paho now a lost

    lost-bridge : (lost.at a).bridge ≡ (s.at a).bridge
    unfolding on_connection_lost
    lost-bridge = ap (λ (x : BridgeConnection C). x.bridge) (set_at_same a _ s.at)

    lost-client : (lost.at a).mqtt_client ≡ some c
    unfolding on_connection_lost
    lost-client = ap (λ (x : BridgeConnection C). x.mqtt_client) (set_at_same a _ s.at) ∙ client

    lost_down : up_at paho (some a) lost ≡ false
    unfolding on_connection_lost
    lost_down =
        ap (λ (x : BridgeConnection C). x.connected && is_up paho s.world x.mqtt_client)
          (set_at_same a _ s.at)

    again_world :
        again.world ≡ subscribe_each c (select is_sensor_topic (s.at a).bridge.topics) s.world
    unfolding on_connect
    again_world =
        ap (λ o. subscribe_to_topics paho o (lost.at a).bridge.topics lost.world) lost-client
        ∙ ap (λ (b : Bridge). subscribe_to_topics paho (some c) b.topics lost.world) lost-bridge
        ∙ (unfold on_connection_lost in
            subscribe_to_topics_each c (s.at a).bridge.topics s.world up)

    again_up : up_at paho (some a) again ≡ true
    unfolding on_connect
    again_up =
        ap (λ (x : BridgeConnection C). x.connected && is_up paho again.world x.mqtt_client)
          (set_at_same a _ lost.at)
        ∙ ap (is_up paho again.world) lost-client
        ∙ ap (λ v. paho.client_connected v c) again_world
        ∙ connected-subscribe_each c (select is_sensor_topic (s.at a).bridge.topics) s.world
        ∙ up

    bridges-lost : lost.bridges ≡ s.bridges
    unfolding on_connection_lost
    bridges-lost = refl

    bridges-again : again.bridges ≡ s.bridges
    unfolding on_connect on_connection_lost
    bridges-again = refl

  -- When no subscription breaks a client's connection, from a manager without bridges, after any
  -- calls and handlers: if a bridge of the table has lost its connection and its client is connected
  -- again, the handler that paho then runs subscribes to exactly the bridge's sensor topics, each
  -- once and in order; `IsConnected` says no in between and yes after it.
  pub reconnect-subscribes :
      (cluster : Cluster W) {m n : Machine W C}
      → IsInitial m
      → Runs paho cluster m n
      → (now : ℤ) (namespace name : String) (a : ℕ)
      → lookup (key namespace name) n.state.bridges ≡ some a
      → ((c : C)
          → (n.state.at a).mqtt_client ≡ some c
          → paho.client_connected n.state.world c ≡ true)
      → (c : C) × ((n.state.at a).mqtt_client ≡ some c)
        × (is_connected paho namespace name (on_connection_lost paho a n.state) ≡ false)
        × ((on_connect paho now a (on_connection_lost paho a n.state)).world
            ≡ subscribe_each c (select is_sensor_topic (n.state.at a).bridge.topics) n.state.world)
        × (is_connected paho namespace name
              (on_connect paho now a (on_connection_lost paho a n.state))
            ≡ true)
  unfolding is_connected
  reconnect-subscribes cluster {n = n} i r now namespace name a tabled up =
      elim (Option-cases (n.state.at a).mqtt_client) [
        | inl e ↦ absurd (((Runs-IsWellFormed paho cluster i r).entries _ a tabled).has_client e)
        | inr (c, e) ↦ (
          c,
          e,
          ap (λ o. up_at paho o (lost now a c n.state e (up c e)))
                (ap (lookup (key namespace name)) (bridges-lost now a c n.state e (up c e))
                  ∙ tabled)
              ∙ lost_down now a c n.state e (up c e),
          again_world now a c n.state e (up c e),
          ap (λ o. up_at paho o (again now a c n.state e (up c e)))
                (ap (lookup (key namespace name)) (bridges-again now a c n.state e (up c e))
                  ∙ tabled)
              ∙ again_up now a c n.state e (up c e),
        )
      ]
