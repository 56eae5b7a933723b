-- ===== src/Health/Examples.antt =====
-- The theorem on health reports at one device.
use iot_yk.Report.Found.{IsMemory}
use iot_yk.Report.Room.{Delivers}
use iot_yk.Report.{Memory}
use iot_yk.Io.{c_string, send}
use iot_yk.Base.{ℕ, ◌^◌, ◌<◌, ◌≡◌, refl, true, List, [], ◌∷◌, replicate, arith}
use iot_yk.Base.Bytes.{done, u32}
use iot_yk.Packet.{zeroed}
use iot_yk.Health.{Health, Metrics, report_packet, health_service_send_report}
use iot_yk.Health.Heard.{IsMetrics, metric_fields, send_report-Heard}

abbrev stack : Memory
stack = record {
  rx_buf = replicate 512 0;
  tlv_buf = replicate 256 0;
  raw = replicate 512 0;
  packet_room = true;
  payload_room = true;
}

stack-IsMemory : IsMemory 256 512 stack
stack-IsMemory = record { tlv_len = refl; raw_len = refl }

abbrev porch : Health
porch = record { has_send = true; device_id = 80 ∷ 49 ∷ []; restart_count = 3 }

abbrev calm : Metrics
calm = record {
  free_heap = 150000;
  min_heap = 120000;
  task_count = 12;
  rssi = 200;
  last_rtt_ms = 40;
  time_us = 5000000;
}

calm-IsMetrics : IsMetrics porch calm
unfolding c_string
calm-IsMetrics = record {
  free_fits = omega arith;
  min_fits = omega arith;
  rssi_fits = omega arith;
  time_fits = omega arith;
  count_fits = omega arith;
  id_fits = omega arith;
}

u32-fits : (n : ℕ) → u32 n < 2 ^ 32
u32-fits n = omega arith

send_report-Heard_example :
    (sent : List ℕ) × (health_service_send_report u32 stack calm porch ≡ done (send sent ∷ []))
    × Delivers
        (metric_fields u32 u32-fits porch calm)
        (report_packet porch)
        (replicate 512 0)
        zeroed
        sent
send_report-Heard_example =
    send_report-Heard u32 u32-fits stack porch calm (replicate 512 0) zeroed stack-IsMemory refl
      refl refl calm-IsMetrics refl
