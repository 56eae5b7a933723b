-- ===== src/Health.antt =====
-- esp32-firmware/main/services/health_service.c. What the heap, the tasks, WiFi, the QoS engine and
-- the clock answer is an argument. Floats are their bit patterns, and `float_of`, the conversion of
-- an integer, is a parameter. The warnings and the readings that are only logged are left out.
pub mod Heard
mod Examples
use iot_yk.Base.{ℕ, ◌*◌, ◌/◌, Bool, false, not, Option, none, some, List, [], ltb, if◌then◌else◌}
use iot_yk.Base.Bytes.{Run, done, ◌>>=◌, u32}
use iot_yk.Packet.{Packet, zeroed, set_header}
use iot_yk.Tlv.{Builder, builder_init, add_uint8, add_uint32, add_uint64, add_string}
use iot_yk.Half.{add_float}
use iot_yk.Report.{Memory, report}
use iot_yk.Io.{Effect, send_some, c_string, server_name, firmware_version}

-- The static variables.
pub record Health : Type 0 where
  pub has_send : Bool
  pub device_id : List ℕ
  pub restart_count : ℕ

-- `rssi` is the byte that the signed number is sent as.
pub record Metrics : Type 0 where
  pub free_heap : ℕ
  pub min_heap : ℕ
  pub task_count : ℕ
  pub rssi : ℕ
  pub last_rtt_ms : ℕ
  pub time_us : ℕ

-- `stored` is what `nvs_config_get_u32` finds under "restart_count"; without it the count is kept.
unfoldable pub health_service_init : List ℕ → Bool → Option ℕ → Health → Health
health_service_init device_id has_send stored h = record {
  has_send = has_send;
  device_id = device_id;
  restart_count = elim stored [ none ↦ h.restart_count | some count ↦ count ];
}

unfoldable pub report_packet : Health → Packet
report_packet h =
    set_header zeroed 0 0 (some (c_string h.device_id)) (some server_name) 0x06 0x04 0x01 1 false

module _ (float_of : ℕ → ℕ) where
  -- Two per cent for each task, and 95 at most.
  unfoldable pub cpu_usage : ℕ → ℕ
  cpu_usage task_count =
      let usage = u32 (task_count * 2) in if ltb 95 usage then float_of 95 else float_of usage

  -- The calls that fill the map.
  unfoldable pub add_metrics : Health → Metrics → Builder → Builder
  unfolding cpu_usage
  add_metrics h m b0 =
      let b1 = (add_float b0 0x05 (cpu_usage m.task_count)).1 in
      let b2 = (add_uint32 b1 0x04 m.free_heap).1 in
      let b3 = (add_uint32 b2 0x04 m.min_heap).1 in
      let b4 = (add_uint8 b3 0x12 m.rssi).1 in
      let b5 = (add_float b4 0x05 (float_of 45)).1 in
      let b6 = (add_float b5 0x05 (float_of 0)).1 in
      let b7 = (add_float b6 0x05 (float_of m.last_rtt_ms)).1 in
      let b8 = (add_uint64 b7 0x02 (m.time_us / 1000000)).1 in
      let b9 = (add_uint32 b8 0x04 h.restart_count).1 in
      let b10 = (add_string b9 0x01 (c_string h.device_id)).1 in
      (add_string b10 0x08 firmware_version).1

  unfoldable pub health_service_send_report : Memory → Metrics → Health → Run (List Effect)
  unfolding report_packet
  health_service_send_report mem m h =
      let b = add_metrics h m (builder_init mem.tlv_buf 256) in
      let sent = report mem 512 (report_packet h) b >>= λ raw. done (send_some h.has_send raw) in
      if not h.has_send then done [] else sent
