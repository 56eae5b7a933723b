-- ===== src/Discovery/Replies.antt =====
-- What a device search gets; ykp_discovery.c.
use iot_yk.Packet.{is_null}
use iot_yk.Tlv.{builder_init}
use iot_yk.Tlv.Build.{uint8}
use iot_yk.Tlv.Build.{uint32}
use iot_yk.Packet.{null, rx_static}
use iot_yk.Report.Room.{report-Delivers}
use iot_yk.Io.{firmware_version}
use iot_yk.Packet.{zeroed}
use iot_yk.Report.Room.{Delivers}
use iot_yk.Tlv.{Builder}
use iot_yk.Report.Header.{set_header-IsMessage}
use iot_yk.Report.Found.{IsMemory}
use iot_yk.Tlv.Build.{add_field, string}
use iot_yk.Report.Room.{width}
use iot_yk.Packet.Read.{parse}
use iot_yk.Report.Room.{entries_width}
use iot_yk.Report.Heard.{IsMessage}
use iot_yk.Tlv.Built.{add_fields}
use iot_yk.Tlv.RoundTrip.{Entries, AreEntries}
use iot_yk.Report.{Memory}
use iot_yk.Io.{c_string}
use iot_yk.Packet.{free}
use iot_yk.Base.{
  ℕ, ◌+◌, ◌^◌, ◌≤◌, ◌<◌, ◌≡◌, inl, inr, refl, true, false, not, ◌||◌, List, [], ◌∷◌, ◌==◌,
  Bool-cases, length, arith,
}
use iot_yk.Base.Bytes.{done, fault}
use iot_yk.Packet.{Packet}
use iot_yk.Discovery.{Discovery, add_answer, reply_packet, reply, ykp_discovery_handle}

-- The strings fit their arrays.
pub record IsDiscovery (d : Discovery) : Type 0 where
  pub id_fits : length (c_string d.device_id) ≤ 8
  pub type_fits : length (c_string d.device_type) ≤ 15
  pub name_fits : length (c_string d.device_name) ≤ 31

-- The entries of a reply.
abbrev pub answer_fields : Discovery → ℕ → Entries
answer_fields d ip_raw =
    (0x01, string (c_string d.device_id))
    ∷ (0x06, string (c_string d.device_name))
    ∷ (0x06, string (c_string d.device_type))
    ∷ (0x08, string firmware_version)
    ∷ (0x13, uint32 ip_raw)
    ∷ (0x11, uint8 0x41)
    ∷ []

add_answer_lem :
    (d : Discovery) (ip_raw : ℕ) (b : Builder)
    → add_fields b (answer_fields d ip_raw) ≡ add_answer d ip_raw b
unfolding add_fields add_field add_answer
add_answer_lem d ip_raw b = refl

answer_fields-AreEntries :
    (d : Discovery) (ip_raw : ℕ)
    → IsDiscovery d
    → ip_raw < 2 ^ 32
    → AreEntries (answer_fields d ip_raw)
answer_fields-AreEntries d ip_raw v h = (
  omega arith,
  omega (arith, v.id_fits),
  (
    omega arith,
    omega (arith, v.name_fits),
    (
      omega arith,
      omega (arith, v.type_fits),
      (omega arith, omega arith, (omega arith, h, (omega arith, omega arith, tt))),
    ),
  ),
)

answer_fields-width :
    (d : Discovery) (ip_raw : ℕ) → IsDiscovery d → 2 + entries_width (answer_fields d ip_raw) ≤ 200
unfolding entries_width width
answer_fields-width d ip_raw v = omega (arith, v.id_fits, v.name_fits, v.type_fits)

reply_packet-IsMessage : (d : Discovery) → IsMessage (reply_packet d)
unfolding reply_packet
reply_packet-IsMessage d = set_header-IsMessage 0 0 _ _ _ _ _ _ false (omega arith) (omega arith)

reply-Delivers :
    (mem : Memory) (d : Discovery) (ip_raw : ℕ) (rx : List ℕ) (out : Packet)
    → IsMemory 200 300 mem
    → mem.packet_room ≡ true
    → mem.payload_room ≡ true
    → IsDiscovery d
    → ip_raw < 2 ^ 32
    → length rx ≡ 512
    → (sent : List ℕ) × (reply mem ip_raw d ≡ done sent)
      × Delivers (answer_fields d ip_raw) (reply_packet d) rx out sent
unfolding reply
reply-Delivers mem d ip_raw rx out w place room v h e =
    let (sent, made, heard) =
      report-Delivers mem 300 200 (reply_packet d) out (answer_fields d ip_raw) rx w place room
        (reply_packet-IsMessage d) (answer_fields-AreEntries d ip_raw v h)
        (answer_fields-width d ip_raw v) (omega arith) (omega arith) e in
    (sent, rw (add_answer_lem d ip_raw (builder_init mem.tlv_buf 200)) at made, heard)

-- Where the heap has room, the buffers are as the declarations size them and the strings fit their
-- arrays: a device search without a payload is answered with one packet, in which the one who
-- searches finds the id, the name, the firmware version, the address and the capabilities of the
-- device; the device type, which stands behind the name under the same key, is not found.
pub handle-Delivers :
    (mem : Memory) (raw : List ℕ) (len ip_raw : ℕ) (d : Discovery) (pkt out : Packet) (rx : List ℕ)
    → IsMemory 200 300 mem
    → mem.packet_room ≡ true
    → mem.payload_room ≡ true
    → IsDiscovery d
    → ip_raw < 2 ^ 32
    → length rx ≡ 512
    → parse mem.rx_buf raw len zeroed ≡ done (true, pkt, mem.rx_buf)
    → pkt.payload ≡ null
    → pkt.header.service_id ≡ 0x07
    → pkt.header.action_id ≡ 0x01
    → (sent : List ℕ) × (ykp_discovery_handle mem raw len ip_raw d ≡ done sent)
      × Delivers (answer_fields d ip_raw) (reply_packet d) rx out sent
unfolding ykp_discovery_handle is_null free
handle-Delivers mem raw len ip_raw d pkt out rx w place room v h e parsed empty service action =
    let (sent, made, heard) = reply-Delivers mem d ip_raw rx out w place room v h e in
    (sent, rw parsed (rw (empty, service, action) made), heard)

-- Every packet that is parsed with a payload in the static receive buffer, a search or not, ends in
-- a fault, since the buffer is given to `free`.
pub handle-faults :
    (mem : Memory) (raw : List ℕ) (len ip_raw : ℕ) (d : Discovery) (pkt : Packet) (rx : List ℕ)
    → parse mem.rx_buf raw len zeroed ≡ done (true, pkt, rx)
    → pkt.payload ≡ rx_static
    → ykp_discovery_handle mem raw len ip_raw d ≡ fault
unfolding ykp_discovery_handle free is_null
handle-faults mem raw len ip_raw d pkt rx parsed full = rw parsed (
    rw full
      (elim (Bool-cases
        (not (pkt.header.service_id == 0x07) || not (pkt.header.action_id == 0x01))) [
          | inl other ↦ rw other
          | inr search ↦ rw search
        ]))
