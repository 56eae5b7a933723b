-- ===== src/Sensor/Examples.antt =====
-- The theorem on sensor reports at one reading.
use iot_yk.Report.Room.{Delivers}
use iot_yk.Report.Found.{IsMemory}
use iot_yk.Io.{send}
use iot_yk.Report.{Memory}
use iot_yk.Io.{c_string}
use iot_yk.Base.{ℕ, ◌≡◌, refl, true, List, [], ◌∷◌, replicate, arith}
use iot_yk.Base.Bytes.{done}
use iot_yk.Packet.{zeroed}
use iot_yk.Sensor.{Sensor, Reading, report_packet, sensor_service_send_report}
use iot_yk.Sensor.Heard.{IsReading, reading_fields, send_report-Delivers}

abbrev stack : Memory
stack = record {
  rx_buf = replicate 512 0;
  tlv_buf = replicate 128 0;
  raw = replicate 300 0;
  packet_room = true;
  payload_room = true;
}

stack-IsMemory : IsMemory 128 300 stack
stack-IsMemory = record { tlv_len = refl; raw_len = refl }

abbrev porch : Sensor
porch = record { has_send = true; device_id = 80 ∷ 49 ∷ [] }

abbrev warm : Reading
warm = record {
  temperature = 0x41c40000;
  humidity = 0x425c0000;
  motion = true;
  light_raw = 700;
  valid = true;
}

warm-IsReading : IsReading warm
warm-IsReading = record {
  temperature_fits = omega arith;
  humidity_fits = omega arith;
  light_fits = omega arith;
}

send_report-Delivers_example :
    (sent : List ℕ) × (sensor_service_send_report stack 5000000 warm porch ≡ done (send sent ∷ []))
    × Delivers
        (reading_fields warm 5000000 (c_string porch.device_id))
        (report_packet porch)
        (replicate 512 0)
        zeroed
        sent
unfolding c_string
send_report-Delivers_example =
    send_report-Delivers stack 5000000 warm porch (replicate 512 0) zeroed stack-IsMemory refl refl
      refl warm-IsReading (omega arith) (omega arith) refl
