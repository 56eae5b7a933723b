-- ===== src/Sensor.antt =====
-- esp32-firmware/main/services/sensor_service.c. The random numbers, the level of the motion pin
-- and the clock are arguments; floats are their bit patterns, and `about`, the value
-- base / 10 + (draw - 50) / divisor in single precision, is a parameter. Log lines are left out.
pub mod Heard
mod Examples
use iot_yk.Base.{ℕ, ◌/◌, ◌%◌, Bool, true, false, some, List, ◌==◌, if◌then◌else◌}
use iot_yk.Base.Bytes.{Run, done, ◌>>=◌, u16}
use iot_yk.Packet.{Packet, zeroed, set_header}
use iot_yk.Tlv.{Builder, builder_init, add_uint8, add_uint16, add_uint64, add_string}
use iot_yk.Half.{add_float}
use iot_yk.Report.{Memory, report}
use iot_yk.Io.{Effect, input, never, gpio_config, send_some, c_string, server_name, gpio_pir_motion}
use iot_yk.Base.{[], ◌∷◌}

-- The static variables.
pub record Sensor : Type 0 where
  pub has_send : Bool
  pub device_id : List ℕ

pub record Reading : Type 0 where
  pub temperature : ℕ
  pub humidity : ℕ
  pub motion : Bool
  pub light_raw : ℕ
  pub valid : Bool

unfoldable pub sensor_service_init : List ℕ → Bool → Sensor × List Effect
sensor_service_init device_id has_send = (
  record { has_send = has_send; device_id = device_id },
  gpio_config
        (record { pins = gpio_pir_motion ∷ []; mode = input; pull_up = false; interrupt = never })
      ∷ [],
)

module _ (about : ℕ → ℕ → ℕ → ℕ) where
  -- The three draws of `esp_random`, and the level of the pin.
  unfoldable pub sensor_service_read : ℕ → ℕ → ℕ → ℕ → Reading
  sensor_service_read draw0 draw1 draw2 level = record {
    temperature = about 245 (draw0 % 100) 20;
    humidity = about 550 (draw1 % 100) 10;
    motion = level == 1;
    light_raw = u16 (draw2 % 4096);
    valid = true;
  }

-- The calls that fill the map.
unfoldable pub add_reading : Reading → ℕ → List ℕ → Builder → Builder
add_reading r time_us device_id b0 =
    let b1 = (add_float b0 0x05 r.temperature).1 in
    let b2 = (add_float b1 0x05 r.humidity).1 in
    let b3 = (add_uint8 b2 0x03 (if r.motion then 1 else 0)).1 in
    let b4 = (add_uint16 b3 0x04 r.light_raw).1 in
    let b5 = (add_uint64 b4 0x02 (time_us / 1000000)).1 in (add_string b5 0x01 device_id).1

unfoldable pub report_packet : Sensor → Packet
report_packet s =
    set_header zeroed 0 0 (some (c_string s.device_id)) (some server_name) 0x06 0x02 0x01 1 false

-- `sensor_service_read` answers true, since its argument is not NULL.
unfoldable pub sensor_service_send_report : Memory → ℕ → Reading → Sensor → Run (List Effect)
unfolding report_packet
sensor_service_send_report mem time_us r s =
    let b = add_reading r time_us (c_string s.device_id) (builder_init mem.tlv_buf 128) in
    report mem 300 (report_packet s) b >>= λ raw. done (send_some s.has_send raw)
