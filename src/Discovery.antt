-- ===== src/Discovery.antt =====
-- esp32-firmware/main/discovery/ykp_discovery.c: the answer to a device search. `ip_raw` is what
-- `inet_pton` makes of the address that WiFi has. Log lines and the idle task are left out.
pub mod Replies
mod Examples
use iot_yk.Base.{
  ℕ, false, not, ◌||◌, Option, none, some, List, [], ◌∷◌, ◌++◌, ◌==◌, if◌then◌else◌, take,
}
use iot_yk.Base.Bytes.{Run, done, ◌>>=◌, ◌>>◌}
use iot_yk.Packet.{Packet, zeroed, set_header, is_null, free}
use iot_yk.Packet.Read.{parse}
use iot_yk.Tlv.{Builder, builder_init, add_uint8, add_uint32, add_string}
use iot_yk.Report.{Memory, report}
use iot_yk.Io.{c_string, firmware_version}

-- The static variables, each a C string in an array.
pub record Discovery : Type 0 where
  pub device_id : List ℕ
  pub device_type : List ℕ
  pub device_name : List ℕ

-- "YKP-"
abbrev pub name_prefix : List ℕ
name_prefix = 89 ∷ 75 ∷ 80 ∷ 45 ∷ []

-- What the stored configuration has under the three keys; a name that is missing is made of the id,
-- and cut to the array of 32 bytes.
unfoldable pub ykp_discovery_init : List ℕ → List ℕ → Option (List ℕ) → Discovery
ykp_discovery_init device_id device_type stored_name = record {
  device_id = device_id;
  device_type = device_type;
  device_name = elim stored_name [
    | none ↦ take 31 (name_prefix ++ c_string device_id)
    | some name ↦ name
  ];
}

-- "DISC"
abbrev pub reply_name : List ℕ
reply_name = 68 ∷ 73 ∷ 83 ∷ 67 ∷ []

-- The calls that fill the map.
unfoldable pub add_answer : Discovery → ℕ → Builder → Builder
add_answer d ip_raw b0 =
    let b1 = (add_string b0 0x01 (c_string d.device_id)).1 in
    let b2 = (add_string b1 0x06 (c_string d.device_name)).1 in
    let b3 = (add_string b2 0x06 (c_string d.device_type)).1 in
    let b4 = (add_string b3 0x08 firmware_version).1 in
    let b5 = (add_uint32 b4 0x13 ip_raw).1 in (add_uint8 b5 0x11 0x41).1

unfoldable pub reply_packet : Discovery → Packet
reply_packet d =
    set_header zeroed 0 0 (some (c_string d.device_id)) (some reply_name) 0x01 0x07 0x02 0 false

-- The bytes of the reply, none where nothing is sent.
unfoldable pub reply : Memory → ℕ → Discovery → Run (List ℕ)
unfolding reply_packet
reply mem ip_raw d =
    report mem 300 (reply_packet d) (add_answer d ip_raw (builder_init mem.tlv_buf 200))

-- A request is parsed, its payload is given to `free`, and a search is answered.
unfoldable pub ykp_discovery_handle : Memory → List ℕ → ℕ → ℕ → Discovery → Run (List ℕ)
unfolding reply
ykp_discovery_handle mem raw len ip_raw d =
    parse mem.rx_buf raw len zeroed >>= λ (valid, pkt, rx_buf).
    let freed = if not (is_null pkt.payload) then free pkt.payload else done tt in
    if not valid
    then done []
    else if not (pkt.header.service_id == 0x07) || not (pkt.header.action_id == 0x01)
    then freed >> done []
    else freed >> reply (record mem { rx_buf = rx_buf }) ip_raw d
