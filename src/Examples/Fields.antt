-- ===== src/Examples/Fields.antt =====
-- The theorems on payloads, fields and formats, applied.
use mqtt_sensor_exporter.Common.{◌≡◌, true, some}
use mqtt_sensor_exporter.Common.Dict.{lookup}
use mqtt_sensor_exporter.Common.Int.{ℤ}
use mqtt_sensor_exporter.Payload.{Payload}
use mqtt_sensor_exporter.Tasmota.Build.{build_payload, assignments}
use mqtt_sensor_exporter.Tasmota.Build.Laws.{lookup-build_payload}
use mqtt_sensor_exporter.Tasmota.Build.Types.{is_typed, build_payload-is_typed}
use mqtt_sensor_exporter.Examples.World.{integers, valve_1, valve_report}
use mqtt_sensor_exporter.Payload as Payloads

reported :
    lookup "Name" (build_payload integers valve_1 valve_report) ≡ some (Payloads.text "Valve")
unfolding assignments
reported = lookup-build_payload integers valve_1 valve_report "Name"

build_payload-is_typed_example : is_typed {F = ℤ} "Name" (Payloads.text "Valve") ≡ true
build_payload-is_typed_example =
    build_payload-is_typed integers valve_1 valve_report "Name" (Payloads.text "Valve") reported
