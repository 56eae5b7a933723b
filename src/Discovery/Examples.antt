-- ===== src/Discovery/Examples.antt =====
-- The theorems on device searches at one search.
use iot_yk.Wire.{read_u16_be}
use iot_yk.Wire.{read_u32_be}
use iot_yk.Packet.Read.{read_tag}
use iot_yk.Packet.Read.{read_body}
use iot_yk.Report.Room.{Delivers}
use iot_yk.Packet.Read.{read_header}
use iot_yk.Packet.Read.{validate_header}
use iot_yk.Report.Found.{IsMemory}
use iot_yk.Report.{Memory}
use iot_yk.Io.{c_string}
use iot_yk.Base.{ℕ, ◌≡◌, refl, true, List, [], ◌∷◌, ◌++◌, ◌==◌, if◌then◌else◌, replicate, arith}
use iot_yk.Base.Bytes.{done, fault}
use iot_yk.Packet.{Packet, zeroed, rx_static, null}
use iot_yk.Packet.Read.{parse}
use iot_yk.Discovery.{Discovery, reply_packet, ykp_discovery_handle}
use iot_yk.Discovery.Replies.{IsDiscovery, answer_fields, handle-Delivers, handle-faults}

abbrev stack : Memory
stack = record {
  rx_buf = replicate 512 0;
  tlv_buf = replicate 200 0;
  raw = replicate 300 0;
  packet_room = true;
  payload_room = true;
}

stack-IsMemory : IsMemory 200 300 stack
stack-IsMemory = record { tlv_len = refl; raw_len = refl }

abbrev lamp : Discovery
lamp = record { device_id = 76 ∷ 49 ∷ []; device_type = 76 ∷ []; device_name = 76 ∷ 65 ∷ [] }

lamp-IsDiscovery : IsDiscovery lamp
unfolding c_string
lamp-IsDiscovery = record {
  id_fits = omega arith;
  type_fits = omega arith;
  name_fits = omega arith;
}

-- The 49 bytes of a search, and the 50 of one with a payload of one byte.
abbrev search : List ℕ
search = 0x59 ∷ 0x4b ∷ 5 ∷ 0 ∷ (replicate 25 0 ++ (7 ∷ 1 ∷ 0 ∷ 0 ∷ replicate 16 0))

abbrev loud_search : List ℕ
loud_search = 0x59 ∷ 0x4b ∷ 5 ∷ 0 ∷ (replicate 25 0 ++ (7 ∷ 1 ∷ 0 ∷ 1 ∷ replicate 17 0))

abbrev searched : ℕ → Packet
searched len = record {
  header = record {
    magic = (0x59, 0x4b);
    version = 5;
    flags = 0;
    packet_id = 0;
    session_id = 0;
    source_id = replicate 8 0;
    dest_id = replicate 8 0;
    route_type = 0;
    service_id = 7;
    action_id = 1;
    payload_len = len;
  };
  payload = if len == 0 then null else rx_static;
  auth_tag = replicate 16 0;
  payload_len = len;
}

parse-search : parse stack.rx_buf search 49 zeroed ≡ done (true, searched 0, stack.rx_buf)
unfolding parse validate_header read_header read_body read_tag zeroed read_u32_be read_u16_be
parse-search = refl

parse-loud_search : parse stack.rx_buf loud_search 50 zeroed ≡ done (true, searched 1, stack.rx_buf)
unfolding parse validate_header read_header read_body read_tag zeroed read_u32_be read_u16_be
parse-loud_search = refl

handle-Delivers_example :
    (sent : List ℕ) × (ykp_discovery_handle stack search 49 0x0100007f lamp ≡ done sent)
    × Delivers (answer_fields lamp 0x0100007f) (reply_packet lamp) (replicate 512 0) zeroed sent
handle-Delivers_example =
    handle-Delivers stack search 49 0x0100007f lamp (searched 0) zeroed (replicate 512 0)
      stack-IsMemory refl refl lamp-IsDiscovery (omega arith) refl parse-search refl refl refl

handle-faults_example : ykp_discovery_handle stack loud_search 50 0x0100007f lamp ≡ fault
handle-faults_example =
    handle-faults stack loud_search 50 0x0100007f lamp (searched 1) stack.rx_buf parse-loud_search
      refl
