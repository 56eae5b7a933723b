-- ===== src/Sensor/Heard.antt =====
-- What the server makes of a sensor report; sensor_service.c.
use iot_yk.Io.{send_some-sent}
use iot_yk.Tlv.{builder_init}
use iot_yk.Report.Room.{report-Delivers}
use iot_yk.Tlv.Build.{string}
use iot_yk.Report.Room.{Delivers}
use iot_yk.Base.{
  ℕ, ◌+◌, ◌/◌, ◌^◌, ◌≤◌, ◌<◌, ◌≡◌, inl, inr, refl, true, false, List, [], ◌∷◌, if◌then◌else◌,
  Bool-cases, length, arith,
}
use iot_yk.Io.{send}
use iot_yk.Tlv.Build.{uint64}
use iot_yk.Sensor.{done}
use iot_yk.Tlv.Build.{uint16}
use iot_yk.Sensor.{c_string}
use iot_yk.Tlv.Build.{uint8}
use iot_yk.Tlv.RoundTrip.{AreEntries}
use iot_yk.Report.Found.{IsMemory}
use iot_yk.Tlv.Build.{half}
use iot_yk.Tlv.RoundTrip.{Entries}
use iot_yk.Sensor.{Builder, Packet}
use iot_yk.Report.Header.{set_header-IsMessage}
use iot_yk.Tlv.Build.{add_field}
use iot_yk.Report.Room.{width}
use iot_yk.Report.Heard.{IsMessage}
use iot_yk.Tlv.Built.{add_fields}
use iot_yk.Report.Room.{entries_width}
use iot_yk.Sensor.{ℕ, Memory}
use iot_yk.Sensor.{Sensor, Reading, add_reading, report_packet, sensor_service_send_report}

-- The entries of a report.
abbrev pub reading_fields : Reading → ℕ → List ℕ → Entries
reading_fields r time_us device_id =
    (0x05, half r.temperature)
    ∷ (0x05, half r.humidity)
    ∷ (0x03, uint8 (if r.motion then 1 else 0))
    ∷ (0x04, uint16 r.light_raw)
    ∷ (0x02, uint64 (time_us / 1000000))
    ∷ (0x01, string device_id)
    ∷ []

-- The values of a reading as their C types hold them.
pub record IsReading (r : Reading) : Type 0 where
  pub temperature_fits : r.temperature < 2 ^ 32
  pub humidity_fits : r.humidity < 2 ^ 32
  pub light_fits : r.light_raw < 2 ^ 16

add_reading_lem :
    (r : Reading) (time_us : ℕ) (device_id : List ℕ) (b : Builder)
    → add_fields b (reading_fields r time_us device_id) ≡ add_reading r time_us device_id b
unfolding add_fields add_field add_reading
add_reading_lem r time_us device_id b = refl

reading_fields-AreEntries :
    (r : Reading) (time_us : ℕ) (device_id : List ℕ)
    → IsReading r
    → time_us < 2 ^ 64
    → length device_id ≤ 8
    → AreEntries (reading_fields r time_us device_id)
reading_fields-AreEntries r time_us device_id v h k =
    let bit : (if r.motion then 1 else 0) < 2 ^ 8 = elim (Bool-cases r.motion) [
      | inl a ↦ rw a (omega arith)
      | inr a ↦ rw a (omega arith)
    ] in
    (
      omega arith,
      v.temperature_fits,
      (
        omega arith,
        v.humidity_fits,
        (
          omega arith,
          bit,
          (omega arith, v.light_fits, (omega arith, omega arith, (omega arith, omega arith, tt))),
        ),
      ),
    )

reading_fields-width :
    (r : Reading) (time_us : ℕ) (device_id : List ℕ)
    → length device_id ≤ 8
    → 2 + entries_width (reading_fields r time_us device_id) ≤ 128
unfolding entries_width width
reading_fields-width r time_us device_id h = omega arith

report_packet-IsMessage : (s : Sensor) → IsMessage (report_packet s)
unfolding report_packet
report_packet-IsMessage s = set_header-IsMessage 0 0 _ _ _ _ _ _ false (omega arith) (omega arith)

-- Where the heap has room, the buffers are as the declarations size them, a send function is set and
-- the device id has at most 8 bytes: a sensor report is one packet, which its receiver parses. Under
-- the keys for state, light, time and device the receiver finds what the report has there, and under
-- the key for floats the temperature; the humidity, which stands behind it under the same key, is
-- not found.
pub send_report-Delivers :
    (mem : Memory) (time_us : ℕ) (r : Reading) (s : Sensor) (rx : List ℕ) (out : Packet)
    → IsMemory 128 300 mem
    → mem.packet_room ≡ true
    → mem.payload_room ≡ true
    → s.has_send ≡ true
    → IsReading r
    → time_us < 2 ^ 64
    → length (c_string s.device_id) ≤ 8
    → length rx ≡ 512
    → (sent : List ℕ) × (sensor_service_send_report mem time_us r s ≡ done (send sent ∷ []))
      × Delivers (reading_fields r time_us (c_string s.device_id)) (report_packet s) rx out sent
unfolding sensor_service_send_report
send_report-Delivers mem time_us r s rx out w place room sends v h k e =
    let id = c_string s.device_id in
    let fs = reading_fields r time_us id in
    let (sent, made, heard) =
      report-Delivers mem 300 128 (report_packet s) out fs rx w place room
        (report_packet-IsMessage s) (reading_fields-AreEntries r time_us id v h k)
        (reading_fields-width r time_us id k) (omega arith) (omega arith) e in
    let made' = rw (add_reading_lem r time_us id (builder_init mem.tlv_buf 128)) at made in
    (
      sent,
      rw made' (rw (send_some-sent s.has_send sent sends (omega (arith, heard.sent_len)))),
      heard,
    )
