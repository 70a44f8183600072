-- ===== src/Tasmota/Build/Types.antt =====
-- The dynamic types of the values in a payload.
use mqtt_sensor_exporter.Common.{
  ◌≡◌, refl, String, ◌==◌, eq_iff, Bool, true, Option, none, some, some_inj, List, [], ◌∷◌, All,
  contains, Bool-cases, inl, inr,
}
use mqtt_sensor_exporter.Common.Dict.{lookup, insert, All-insert}
use mqtt_sensor_exporter.Common.Int.{ℤ}
use mqtt_sensor_exporter.Float.{Float64}
use mqtt_sensor_exporter.Kube.{Device}
use mqtt_sensor_exporter.Payload.{Value, text, float, flag, Payload}
use mqtt_sensor_exporter.Tasmota.Types.{ZigbeeDevice}
use mqtt_sensor_exporter.Tasmota.Build.{
  put, puts, assignments, build_payload, text_unless_empty, name_value, flag_value, int_value,
  corrected,
}

abbrev pub text_keys : List String
text_keys = "Device" ∷ "Name" ∷ []

abbrev pub flag_keys : List String
flag_keys = "Contact" ∷ "Occupancy" ∷ "WaterLeak" ∷ []

abbrev pub number_keys : List String
number_keys =
    "Temperature" ∷ "Humidity" ∷ "Pressure" ∷ "Voltage" ∷ "BatteryPercentage" ∷ "Power"
    ∷ "LinkQuality" ∷ "Endpoint" ∷ "WaterLevel" ∷ "LastValveOpenDuration" ∷ "IrrigationStartTime"
    ∷ "IrrigationEndTime" ∷ "DailyIrrigationVolume" ∷ []

module _ {F : Type 0} where
  -- `string` under the names, `bool` under the contacts, `float64` under the measurements.
  abbrev pub is_typed : String → Value F → Bool
  is_typed key (text s) = contains text_keys key
  is_typed key (flag b) = contains flag_keys key
  is_typed key (float x) = contains number_keys key

  abbrev IsTyped : String × Value F → Type 0
  IsTyped e = is_typed e.0 e.1 ≡ true

  -- The same of a value that may be absent.
  abbrev IsTypedIfAny : String × Option (Value F) → Type 0
  IsTypedIfAny (key, none) = Unit
  IsTypedIfAny (key, some v) = is_typed key v ≡ true

  puts-IsTyped :
      (vs : List (String × Option (Value F))) (payload : Payload F)
      → All IsTypedIfAny vs
      → All IsTyped payload
      → All IsTyped (puts vs payload)
  unfolding puts put
  puts-IsTyped [] payload h p = p
  puts-IsTyped ((key, none) ∷ vs) payload h p = puts-IsTyped vs payload h.1 p
  puts-IsTyped ((key, some v) ∷ vs) payload h p =
      puts-IsTyped vs (insert key v payload) h.1 (All-insert IsTyped key v payload h.0 p)

  lookup-IsTyped :
      (key : String) (v : Value F) (payload : Payload F)
      → All IsTyped payload
      → lookup key payload ≡ some v
      → is_typed key v ≡ true
  unfolding lookup
  lookup-IsTyped key v [] h e = cc
  lookup-IsTyped key v ((k, u) ∷ rest) h e = elim (Bool-cases (k == key)) [
    | inl same ↦
        let here : k ≡ key = (eq_iff k key).0 same in
        let value : u ≡ v = some_inj (rw same at e) in rw (← here, ← value) h.0
    | inr other ↦ lookup-IsTyped key v rest h.1 (rw other at e)
  ]

module _ {F : Type 0} (fl : Float64 F) where
  flagged :
      (key : String)
      → contains flag_keys key ≡ true
      → (b : Option Bool) → IsTypedIfAny {F = F} (key, flag_value b)
  flagged key e none = tt
  flagged key e (some b) = e

  textual :
      (key : String)
      → contains text_keys key ≡ true
      → (s : String) → IsTypedIfAny {F = F} (key, text_unless_empty s)
  textual key e s = elim (Bool-cases (s == "")) [ inl empty ↦ rw empty tt | inr full ↦ rw full e ]

  named : (friendly reported : String) → IsTypedIfAny {F = F} ("Name", name_value friendly reported)
  named friendly reported = elim (Bool-cases (friendly == "")) [
    | inl empty ↦ rw empty (textual "Name" refl reported)
    | inr full ↦ rw full refl
  ]

  numeric_int :
      (key : String)
      → contains number_keys key ≡ true
      → (n : Option ℤ) → IsTypedIfAny (key, int_value fl n)
  numeric_int key e none = tt
  numeric_int key e (some n) = e

  numeric :
      (device : Device) (name key : String)
      → contains number_keys key ≡ true
      → (x : Option F) → IsTypedIfAny (key, corrected fl device name x)
  numeric device name key e none = tt
  numeric device name key e (some x) = e

  assignments-IsTyped :
      (device : Device) (zb : ZigbeeDevice F) → All IsTypedIfAny (assignments fl device zb)
  unfolding assignments
  assignments-IsTyped device zb = (
    textual "Device" refl zb.device,
    (
      named device.friendly_name zb.name,
      (
        numeric device "temperature" "Temperature" refl zb.temperature,
        (
          numeric device "humidity" "Humidity" refl zb.humidity,
          (
            numeric device "pressure" "Pressure" refl zb.pressure,
            (
              numeric device "voltage" "Voltage" refl zb.voltage,
              (
                numeric_int "BatteryPercentage" refl _,
                (
                  numeric_int "Power" refl _,
                  (
                    numeric_int "LinkQuality" refl _,
                    (
                      numeric_int "Endpoint" refl _,
                      (
                        flagged "Contact" refl zb.contact,
                        (
                          flagged "Occupancy" refl zb.occupancy,
                          (
                            flagged "WaterLeak" refl zb.water_leak,
                            (
                              numeric_int "WaterLevel" refl _,
                              (
                                numeric_int "LastValveOpenDuration" refl _,
                                (
                                  numeric_int "IrrigationStartTime" refl _,
                                  (
                                    numeric_int "IrrigationEndTime" refl _,
                                    (numeric_int "DailyIrrigationVolume" refl _, tt),
                                  ),
                                ),
                              ),
                            ),
                          ),
                        ),
                      ),
                    ),
                  ),
                ),
              ),
            ),
          ),
        ),
      ),
    ),
  )

  -- Every value of a built payload has the dynamic type of its key: a `string` under "Device" and
  -- "Name", a `bool` under "Contact", "Occupancy" and "WaterLeak", a `float64` under the thirteen
  -- keys of measurements; and there is no other key.
  pub build_payload-is_typed :
      (device : Device) (zb : ZigbeeDevice F) (key : String) (v : Value F)
      → lookup key (build_payload fl device zb) ≡ some v
      → is_typed key v ≡ true
  unfolding build_payload
  build_payload-is_typed device zb key v e =
      lookup-IsTyped key v (puts (assignments fl device zb) [])
        (puts-IsTyped (assignments fl device zb) [] (assignments-IsTyped device zb) tt) e
