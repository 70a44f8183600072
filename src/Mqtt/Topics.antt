-- ===== src/Mqtt/Topics.antt =====
-- internal/mqtt/manager.go: the subscriptions of a connection.
use mqtt_sensor_exporter.Common.{
  ℕ, ◌%◌, ◌-◌, ◌≡◌, refl, Bool, ◌||◌, Option, none, some, List, [], ◌∷◌, ◌==◌, if◌then◌else◌,
  Bool-cases, inl, inr,
}
use mqtt_sensor_exporter.Common.Int.{ℤ, pos, negsuc}
use mqtt_sensor_exporter.Mqtt.Types.{TopicSubscription, Paho}

-- `sensorTopicTypes[topicSub.Type]`
abbrev pub is_sensor_topic : TopicSubscription → Bool
is_sensor_topic t = t.type == "telemetry" || t.type == "sensor"

-- `byte(*topicSub.QoS)`
abbrev byte_of : ℤ → ℕ
byte_of (pos n) = n % 256
byte_of (negsuc n) = 255 - n % 256

abbrev pub qos_of : Option ℤ → ℕ
qos_of none = 0
qos_of (some q) = byte_of q

module _ {W C : Type 0} (paho : Paho W C) where
  -- A failed subscription is only logged.
  unfoldable pub subscribe_to_topic : Option C → TopicSubscription → W → W
  subscribe_to_topic none t w = w
  subscribe_to_topic (some c) t w =
      if paho.client_connected w c then (paho.subscribe w c t.topic (qos_of t.qos)).0 else w

  unfoldable pub subscribe_to_topics : Option C → List TopicSubscription → W → W
  subscribe_to_topics client [] w = w
  subscribe_to_topics client (t ∷ topics) w =
      let next = if is_sensor_topic t then subscribe_to_topic client t w else w in
      subscribe_to_topics client topics next

  -- Without a client there are no subscriptions.
  pub subscribe_to_topics-none :
      (topics : List TopicSubscription) (w : W) → subscribe_to_topics none topics w ≡ w
  unfolding subscribe_to_topics subscribe_to_topic
  subscribe_to_topics-none [] w = refl
  subscribe_to_topics-none (t ∷ topics) w = elim (Bool-cases (is_sensor_topic t)) [
    | inl e ↦ rw e (subscribe_to_topics-none topics w)
    | inr e ↦ rw e (subscribe_to_topics-none topics w)
  ]
