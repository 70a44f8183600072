-- ===== src/Tasmota/Dispatcher.antt =====
-- internal/tasmota/dispatcher.go: the handlers by message type.
use mqtt_sensor_exporter.Common.{
  ℕ, ◌≡◌, String, Option, none, some, List, [], ◌==◌, if◌then◌else◌, ok, Action, Bool-cases, inl,
  inr,
}
use mqtt_sensor_exporter.Common.Dict.{Dict, lookup, insert, lookup-insert}
use mqtt_sensor_exporter.Common.Int.{ℤ}
use mqtt_sensor_exporter.Tasmota.Types.{MessageContext}

-- The interface `MessageHandler`.
abbrev pub MessageHandler : Type 0 → Type 0
MessageHandler W = MessageContext → List ℕ → Action W (Unit {0})

pub record Dispatcher (W : Type 0) : Type 0 where
  pub handlers : Dict (MessageHandler W)

module _ {W : Type 0} where
  unfoldable pub register_handler : String → MessageHandler W → Dispatcher W → Dispatcher W
  register_handler message_type handler d = record d {
    handlers = insert message_type handler d.handlers;
  }

  -- Two telemetry handlers, which differ only in their loggers.
  unfoldable pub new_dispatcher : MessageHandler W → MessageHandler W → Dispatcher W
  new_dispatcher telemetry_handler sensor_handler =
      register_handler "sensor" sensor_handler
        (register_handler "telemetry" telemetry_handler (record { handlers = [] }))

  unfoldable pub get_handler : String → Dispatcher W → Option (MessageHandler W)
  get_handler message_type d = lookup message_type d.handlers

  unfoldable pub call_handler :
      Option (MessageHandler W) → MessageContext → List ℕ → Action W (Unit {0})
  call_handler none context payload w = (w, ok tt)
  call_handler (some handler) context payload w = handler context payload w

  -- `now` is the call of `time.Now()`. A type with no handler is no error.
  unfoldable pub dispatch :
      Dispatcher W → ℤ → String → String → String → String → List ℕ → Action W (Unit {0})
  dispatch d now message_type topic bridge_name bridge_namespace payload =
      call_handler (lookup message_type d.handlers)
        (record {
          bridge_name = bridge_name;
          bridge_namespace = bridge_namespace;
          topic = topic;
          timestamp = now;
        })
        payload

  -- Registering a handler replaces the one of its own type and no other.
  pub get_handler-register_handler :
      (message_type other : String) (handler : MessageHandler W) (d : Dispatcher W)
      → get_handler other (register_handler message_type handler d)
        ≡ (if message_type == other then some handler else get_handler other d)
  unfolding get_handler register_handler
  get_handler-register_handler message_type other handler d =
      lookup-insert message_type other handler d.handlers

  -- The dispatcher of the program hands a "telemetry" or "sensor" message, with its context, to the
  -- handler of that type, and drops a message of any other type without an error or a change.
  pub dispatch-new_dispatcher :
      (telemetry sensor : MessageHandler W) (now : ℤ)
      (message_type topic bridge_name bridge_namespace : String) (payload : List ℕ) (w : W)
      → let context : MessageContext = record {
        bridge_name = bridge_name;
        bridge_namespace = bridge_namespace;
        topic = topic;
        timestamp = now;
      } in
        dispatch
          (new_dispatcher telemetry sensor)
          now
          message_type
          topic
          bridge_name
          bridge_namespace
          payload
          w
        ≡ (if "telemetry" == message_type
            then telemetry context payload w
            else if "sensor" == message_type
            then sensor context payload w
            else (w, ok tt))
  unfolding dispatch new_dispatcher register_handler call_handler lookup insert
  dispatch-new_dispatcher telemetry sensor now message_type topic name namespace payload w =
      elim (Bool-cases ("telemetry" == message_type)) [
        | inl t ↦ rw t
        | inr not_t ↦ elim (Bool-cases ("sensor" == message_type)) [
          | inl s ↦ rw (not_t, s)
          | inr not_s ↦ rw (not_t, not_s)
        ]
      ]
