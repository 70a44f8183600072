-- ===== src/Tasmota/Fields/Agree.antt =====
-- `getFieldValue` and the payload of the telemetry handler have the same fields.
use mqtt_sensor_exporter.Common.{
  ◌≡◌, refl, ap, sym, ◌∙◌, String, Bool, true, false, Option, none, some, ◌++◌, All,
}
use mqtt_sensor_exporter.Common.Dict.{lookup}
use mqtt_sensor_exporter.Common.Int.{ℤ}
use mqtt_sensor_exporter.Float.{Float64}
use mqtt_sensor_exporter.Kube.{Device}
use mqtt_sensor_exporter.Payload.{Value}
use mqtt_sensor_exporter.Tasmota.Types.{ZigbeeDevice}
use mqtt_sensor_exporter.Tasmota.Build.{
  corrected, corrected_int, int_value, flag_value, assignments, build_payload,
}
use mqtt_sensor_exporter.Tasmota.Build.Laws.{after, or_old-none, lookup-build_payload}
use mqtt_sensor_exporter.Tasmota.Build.Types.{number_keys, flag_keys}
use mqtt_sensor_exporter.Tasmota.Fields.{
  FieldValue, float_value, int64_value, bool_value, deref, fields_of, get_field_value,
}

abbrev pub is_set : {A : Type 0} → Option A → Bool
is_set none = false
is_set (some x) = true

is_set-deref :
    {A F : Type 0} (wrap : A → FieldValue F) (x : Option A) → is_set (deref wrap x) ≡ is_set x
is_set-deref wrap none = refl
is_set-deref wrap (some x) = refl

module _ {F : Type 0} (fl : Float64 F) (device : Device) where
  is_set-corrected : (key : String) (x : Option F) → is_set (corrected fl device key x) ≡ is_set x
  is_set-corrected key none = refl
  is_set-corrected key (some x) = refl

  is_set-int_value : (n : Option ℤ) → is_set (int_value fl n) ≡ is_set n
  is_set-int_value none = refl
  is_set-int_value (some n) = refl

  is_set-corrected_int :
      (key : String) (n : Option ℤ)
      → is_set (int_value fl (corrected_int fl device key n)) ≡ is_set n
  is_set-corrected_int key none = refl
  is_set-corrected_int key (some n) = refl

  is_set-flag_value : (b : Option Bool) → is_set (flag_value {F = F} b) ≡ is_set b
  is_set-flag_value none = refl
  is_set-flag_value (some b) = refl

  -- For each of the sixteen keys of measurements and contacts: the payload that is built for a
  -- message has a value under the key exactly when `getFieldValue` finds one under that name.
  pub is_set-get_field_value :
      (zb : ZigbeeDevice F)
      → All
          (λ key.
            is_set (lookup key (build_payload fl device zb))
            ≡ is_set (get_field_value (some zb) key))
          (number_keys ++ flag_keys)
  unfolding get_field_value fields_of lookup assignments
  is_set-get_field_value zb = (
    at "Temperature" (corrected fl device "temperature" zb.temperature) (or_old-none _) (
        is_set-corrected "temperature" zb.temperature
        ∙ sym (is_set-deref float_value zb.temperature)),
    (
      at "Humidity" (corrected fl device "humidity" zb.humidity) (or_old-none _)
          (is_set-corrected "humidity" zb.humidity ∙ sym (is_set-deref float_value zb.humidity)),
      (
        at "Pressure" (corrected fl device "pressure" zb.pressure) (or_old-none _)
            (is_set-corrected "pressure" zb.pressure ∙ sym (is_set-deref float_value zb.pressure)),
        (
          at "Voltage" (corrected fl device "voltage" zb.voltage) (or_old-none _)
              (is_set-corrected "voltage" zb.voltage ∙ sym (is_set-deref float_value zb.voltage)),
          (
            at "BatteryPercentage"
                (int_value fl (corrected_int fl device "battery_percentage" zb.battery_percentage))
                (or_old-none _)
                (is_set-corrected_int "battery_percentage" zb.battery_percentage
                  ∙ sym (is_set-deref FieldValue.int_value zb.battery_percentage)),
            (
              at "Power" (int_value fl (corrected_int fl device "power" zb.power)) (or_old-none _) (
                  is_set-corrected_int "power" zb.power
                  ∙ sym (is_set-deref FieldValue.int_value zb.power)),
              (
                at "LinkQuality"
                    (int_value fl (corrected_int fl device "link_quality" zb.link_quality))
                    (or_old-none _)
                    (is_set-corrected_int "link_quality" zb.link_quality
                      ∙ sym (is_set-deref FieldValue.int_value zb.link_quality)),
                (
                  at "Endpoint" (int_value fl zb.endpoint) (or_old-none _) (
                      is_set-int_value zb.endpoint
                      ∙ sym (is_set-deref FieldValue.int_value zb.endpoint)),
                  (
                    at "WaterLevel"
                        (int_value fl (corrected_int fl device "water_level" zb.water_level))
                        (or_old-none _)
                        (is_set-corrected_int "water_level" zb.water_level
                          ∙ sym (is_set-deref FieldValue.int_value zb.water_level)),
                    (
                      at "LastValveOpenDuration"
                          (int_value fl (
                            corrected_int fl device "last_valve_open_duration"
                              zb.last_valve_open_duration))
                          (or_old-none _)
                          (is_set-corrected_int "last_valve_open_duration"
                              zb.last_valve_open_duration
                            ∙ sym (is_set-deref FieldValue.int_value zb.last_valve_open_duration)),
                      (
                        at "IrrigationStartTime" (int_value fl zb.irrigation_start_time)
                            (or_old-none _)
                            (is_set-int_value zb.irrigation_start_time
                              ∙ sym (is_set-deref int64_value zb.irrigation_start_time)),
                        (
                          at "IrrigationEndTime" (int_value fl zb.irrigation_end_time)
                              (or_old-none _)
                              (is_set-int_value zb.irrigation_end_time
                                ∙ sym (is_set-deref int64_value zb.irrigation_end_time)),
                          (
                            at "DailyIrrigationVolume"
                                (int_value fl (
                                  corrected_int fl device "daily_irrigation_volume"
                                    zb.daily_irrigation_volume))
                                (or_old-none _)
                                (is_set-corrected_int "daily_irrigation_volume"
                                    zb.daily_irrigation_volume
                                  ∙ sym (
                                      is_set-deref FieldValue.int_value
                                        zb.daily_irrigation_volume)),
                            (
                              at "Contact" (flag_value zb.contact) (or_old-none _) (
                                  is_set-flag_value zb.contact
                                  ∙ sym (is_set-deref bool_value zb.contact)),
                              (
                                at "Occupancy" (flag_value zb.occupancy) (or_old-none _) (
                                    is_set-flag_value zb.occupancy
                                    ∙ sym (is_set-deref bool_value zb.occupancy)),
                                (
                                  at "WaterLeak" (flag_value zb.water_leak) (or_old-none _) (
                                      is_set-flag_value zb.water_leak
                                      ∙ sym (is_set-deref bool_value zb.water_leak)),
                                  tt,
                                ),
                              ),
                            ),
                          ),
                        ),
                      ),
                    ),
                  ),
                ),
              ),
            ),
          ),
        ),
      ),
    ),
  )
    where
      at :
          (key : String) (v : Option (Value F))
          → after key (assignments fl device zb) none ≡ v
          → is_set v ≡ is_set (get_field_value (some zb) key)
          → is_set (lookup key (build_payload fl device zb))
            ≡ is_set (get_field_value (some zb) key)
      at key v e f = ap is_set (lookup-build_payload fl device zb key ∙ e) ∙ f
