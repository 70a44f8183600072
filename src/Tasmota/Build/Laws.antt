-- ===== src/Tasmota/Build/Laws.antt =====
-- What stands under each key of a built payload.
use mqtt_sensor_exporter.Common.{
  ◌≡◌, refl, ◌∙◌, ap, String, Option, none, some, List, [], ◌∷◌, ◌==◌, if◌then◌else◌, arith,
}
use mqtt_sensor_exporter.Common.Dict.{lookup, lookup-insert}
use mqtt_sensor_exporter.Float.{Float64}
use mqtt_sensor_exporter.Kube.{Device}
use mqtt_sensor_exporter.Payload.{Value, Payload, as_text, text_at}
use mqtt_sensor_exporter.Tasmota.Types.{ZigbeeDevice}
use mqtt_sensor_exporter.Tasmota.Build.{put, puts, corrected, assignments, build_payload}

module _ {F : Type 0} where
  abbrev pub or_old : Option (Value F) → Option (Value F) → Option (Value F)
  or_old none old = old
  or_old (some v) old = some v

  -- The value of a key after the assignments, from its value before them.
  abbrev pub after : String → List (String × Option (Value F)) → Option (Value F) → Option (Value F)
  after j [] old = old
  after j ((k, v) ∷ rest) old = after j rest (if k == j then or_old v old else old)

  lookup-put :
      (j k : String) (v : Option (Value F)) (p : Payload F)
      → lookup j (put k v p) ≡ (if k == j then or_old v (lookup j p) else lookup j p)
  unfolding put
  lookup-put j k none p = ground arith
  lookup-put j k (some v) p = lookup-insert k j v p

  lookup-puts :
      (j : String) (es : List (String × Option (Value F))) (p : Payload F)
      → lookup j (puts es p) ≡ after j es (lookup j p)
  unfolding puts
  lookup-puts j [] p = refl
  lookup-puts j ((k, v) ∷ rest) p =
      lookup-puts j rest (put k v p) ∙ ap (after j rest) (lookup-put j k v p)

  pub or_old-none : (v : Option (Value F)) → or_old v none ≡ v
  or_old-none none = refl
  or_old-none (some v) = refl

module _ {F : Type 0} (fl : Float64 F) (device : Device) (zb : ZigbeeDevice F) where
  pub lookup-build_payload :
      (j : String) → lookup j (build_payload fl device zb) ≡ after j (assignments fl device zb) none
  unfolding build_payload lookup
  lookup-build_payload j = lookup-puts j (assignments fl device zb) []

  -- No payload has the keys under which the handlers look for the two addresses.
  pub text_at-short_addr : text_at "databaseiotgorm.Device" (build_payload fl device zb) ≡ none
  unfolding text_at assignments
  text_at-short_addr = ap as_text (lookup-build_payload "databaseiotgorm.Device")

  pub text_at-ieee_addr : text_at "IEEEAddr" (build_payload fl device zb) ≡ none
  unfolding text_at assignments
  text_at-ieee_addr = ap as_text (lookup-build_payload "IEEEAddr")

  pub lookup-temperature :
      lookup "Temperature" (build_payload fl device zb)
      ≡ corrected fl device "temperature" zb.temperature
  unfolding assignments
  lookup-temperature = lookup-build_payload "Temperature" ∙ or_old-none _
