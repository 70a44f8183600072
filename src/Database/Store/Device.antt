-- ===== src/Database/Store/Device.antt =====
-- The first part of every `StoreMeasurement`: find the device by its name, or create it.
pub mod Laws
pub mod Settled
use mqtt_sensor_exporter.Common.{
  String, Bool, true, false, not, ◌&&◌, ◌||◌, Option, none, some, ◌==◌, if◌then◌else◌, wrapf, ok,
  err, Action, with_context,
}
use mqtt_sensor_exporter.Payload.{Payload, text_at}
use mqtt_sensor_exporter.Database.Gorm.{DbDevice, Lookup, found, not_found, failed, Gorm}
use mqtt_sensor_exporter.Database.Text.{sanitize_string}

-- The keys of the payload that hold the device's short and long address.
abbrev pub short_addr_key : String
short_addr_key = "databaseiotgorm.Device"

abbrev pub ieee_addr_key : String
ieee_addr_key = "IEEEAddr"

-- A field of a new device: empty unless the payload has a text for it.
abbrev pub sanitized : Option String → String
sanitized none = ""
sanitized (some s) = sanitize_string s

-- A known device's field is written when the payload has a text that is neither empty nor the old
-- value, which it is compared with before it is sanitized.
abbrev pub differs : Option String → String → Bool
differs none old = false
differs (some s) old = not (s == "") && not (old == s)

abbrev pub refreshed_field : Option String → String → String
refreshed_field s old = if differs s old then sanitized s else old

module _ {F : Type 0} where
  unfoldable pub new_device : String → String → Payload F → DbDevice
  new_device sensor_type device_id payload = record {
    id = 0;
    device_id = device_id;
    sensor_type = sensor_type;
    device_name = sanitized (text_at "Name" payload);
    short_addr = sanitized (text_at short_addr_key payload);
    ieee_addr = sanitized (text_at ieee_addr_key payload);
  }

  unfoldable pub refreshed : Payload F → DbDevice → DbDevice
  refreshed payload d = record d {
    device_name = refreshed_field (text_at "Name" payload) d.device_name;
    short_addr = refreshed_field (text_at short_addr_key payload) d.short_addr;
    ieee_addr = refreshed_field (text_at ieee_addr_key payload) d.ieee_addr;
  }

  -- The flag `updated`.
  unfoldable pub needs_save : Payload F → DbDevice → Bool
  needs_save payload d =
      differs (text_at "Name" payload) d.device_name
      || differs (text_at short_addr_key payload) d.short_addr
      || differs (text_at ieee_addr_key payload) d.ieee_addr

module _ {W H F : Type 0} (g : Gorm W H F) where
  -- The branches on the outcome of `First`. The error of `Save` is not read.
  unfoldable pub settle_device :
      String → String → Payload F → H → Lookup DbDevice → Action W DbDevice
  settle_device sensor_type device_id payload h not_found w =
      with_context "failed to create device"
        (g.create_device w h (new_device sensor_type device_id payload))
  settle_device sensor_type device_id payload h (failed e) w =
      (w, err (wrapf "failed to query device" e))
  settle_device sensor_type device_id payload h (found d) w = (
    if needs_save payload d then (g.save_device w h (refreshed payload d)).0 else w,
    ok (refreshed payload d),
  )

  unfoldable pub ensure_device : String → String → Payload F → H → Action W DbDevice
  ensure_device sensor_type device_id payload h w =
      settle_device sensor_type device_id payload h (g.first_device w h device_id) w
