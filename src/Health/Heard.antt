-- ===== src/Health/Heard.antt =====
-- What the server makes of a health report; health_service.c.
use iot_yk.Base.{if_false}
use iot_yk.Io.{send_some-sent, firmware_version}
use iot_yk.Tlv.{builder_init}
use iot_yk.Tlv.Build.{string}
use iot_yk.Report.Room.{report-Delivers}
use iot_yk.Tlv.Build.{uint64}
use iot_yk.Report.Room.{Delivers}
use iot_yk.Tlv.Build.{uint8}
use iot_yk.Tlv.Build.{uint32}
use iot_yk.Tlv.{Builder}
use iot_yk.Io.{send}
use iot_yk.Report.Header.{set_header-IsMessage}
use iot_yk.Tlv.Build.{add_field, half}
use iot_yk.Report.Found.{IsMemory}
use iot_yk.Report.Room.{width}
use iot_yk.Report.Room.{entries_width}
use iot_yk.Tlv.Built.{add_fields}
use iot_yk.Report.Heard.{IsMessage}
use iot_yk.Tlv.RoundTrip.{Entries, AreEntries}
use iot_yk.Io.{c_string}
use iot_yk.Base.Bytes.{u32}
use iot_yk.Report.{Memory}
use iot_yk.Base.{
  ℕ, ◌+◌, ◌*◌, ◌/◌, ◌^◌, ◌≤◌, ◌<◌, ◌≡◌, inl, inr, refl, ◌∙◌, true, false, not, List, [], ◌∷◌, ltb,
  Bool-cases, length, arith,
}
use iot_yk.Base.Bytes.{done}
use iot_yk.Packet.{Packet}
use iot_yk.Health.{
  Health, Metrics, cpu_usage, add_metrics, report_packet, health_service_send_report,
}

-- The values as their C types hold them.
pub record IsMetrics (h : Health) (m : Metrics) : Type 0 where
  pub free_fits : m.free_heap < 2 ^ 32
  pub min_fits : m.min_heap < 2 ^ 32
  pub rssi_fits : m.rssi < 2 ^ 8
  pub time_fits : m.time_us < 2 ^ 64
  pub count_fits : h.restart_count < 2 ^ 32
  pub id_fits : length (c_string h.device_id) ≤ 8

module _ (float_of : ℕ → ℕ) (narrow : (n : ℕ) → float_of n < 2 ^ 32) where
  -- The entries of a report.
  abbrev pub metric_fields : Health → Metrics → Entries
  metric_fields h m =
      (0x05, half (cpu_usage float_of m.task_count))
      ∷ (0x04, uint32 m.free_heap)
      ∷ (0x04, uint32 m.min_heap)
      ∷ (0x12, uint8 m.rssi)
      ∷ (0x05, half (float_of 45))
      ∷ (0x05, half (float_of 0))
      ∷ (0x05, half (float_of m.last_rtt_ms))
      ∷ (0x02, uint64 (m.time_us / 1000000))
      ∷ (0x04, uint32 h.restart_count)
      ∷ (0x01, string (c_string h.device_id))
      ∷ (0x08, string firmware_version)
      ∷ []

  add_metrics_lem :
      (h : Health) (m : Metrics) (b : Builder)
      → add_fields b (metric_fields h m) ≡ add_metrics float_of h m b
  unfolding add_fields add_field add_metrics
  add_metrics_lem h m b = refl

  cpu_usage-fits : (task_count : ℕ) → cpu_usage float_of task_count < 2 ^ 32
  unfolding cpu_usage
  cpu_usage-fits task_count = elim (Bool-cases (ltb 95 (u32 (task_count * 2)))) [
    | inl a ↦ rw a (narrow 95)
    | inr a ↦ rw a (narrow _)
  ]

  metric_fields-AreEntries :
      (h : Health) (m : Metrics) → IsMetrics h m → AreEntries (metric_fields h m)
  metric_fields-AreEntries h m v = (
    omega arith,
    cpu_usage-fits m.task_count,
    (
      omega arith,
      v.free_fits,
      (
        omega arith,
        v.min_fits,
        (
          omega arith,
          v.rssi_fits,
          (
            omega arith,
            narrow 45,
            (
              omega arith,
              narrow 0,
              (
                omega arith,
                narrow m.last_rtt_ms,
                (
                  omega arith,
                  omega (arith, v.time_fits),
                  (
                    omega arith,
                    v.count_fits,
                    (omega arith, omega (arith, v.id_fits), (omega arith, omega arith, tt)),
                  ),
                ),
              ),
            ),
          ),
        ),
      ),
    ),
  )

  metric_fields-width :
      (h : Health) (m : Metrics) → IsMetrics h m → 2 + entries_width (metric_fields h m) ≤ 256
  unfolding entries_width width
  metric_fields-width h m v = omega (arith, v.id_fits)

  report_packet-IsMessage : (h : Health) → IsMessage (report_packet h)
  unfolding report_packet
  report_packet-IsMessage h = set_header-IsMessage 0 0 _ _ _ _ _ _ false (omega arith) (omega arith)

  -- Where the heap has room, the buffers are as the declarations size them, a send function is set
  -- and the device id has at most 8 bytes: a health report is one packet, which its receiver parses.
  -- Under each key it finds the first entry: the CPU usage of the four floats, the free heap of the
  -- three integers; the least heap, the temperature, the round trip and the restart count, which
  -- stand behind them, are not found by key.
  pub send_report-Heard :
      (mem : Memory) (h : Health) (m : Metrics) (rx : List ℕ) (out : Packet)
      → IsMemory 256 512 mem
      → mem.packet_room ≡ true
      → mem.payload_room ≡ true
      → h.has_send ≡ true
      → IsMetrics h m
      → length rx ≡ 512
      → (sent : List ℕ) × (health_service_send_report float_of mem m h ≡ done (send sent ∷ []))
        × Delivers (metric_fields h m) (report_packet h) rx out sent
  unfolding health_service_send_report
  send_report-Heard mem h m rx out w place room sends v e =
      let (sent, made, heard) =
        report-Delivers mem 512 256 (report_packet h) out (metric_fields h m) rx w place room
          (report_packet-IsMessage h) (metric_fields-AreEntries h m v) (metric_fields-width h m v)
          (omega arith) (omega arith) e in
      let made' = rw (add_metrics_lem h m (builder_init mem.tlv_buf 256)) at made in
      let goes = send_some-sent h.has_send sent sends (omega (arith, heard.sent_len)) in
      (sent, if_false _ _ (not h.has_send) (rw sends) ∙ rw made' (rw goes), heard)
