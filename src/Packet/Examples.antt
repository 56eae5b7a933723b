-- ===== src/Packet/Examples.antt =====
-- The theorems of the packet at a concrete relay command.
use iot_yk.Base.{ℕ, ◌≡◌, refl, true, false, none, some, List, [], ◌∷◌, replicate, take, arith}
use iot_yk.Base.Bytes.{done}
use iot_yk.Packet.{Packet, heap, zeroed, set_header, set_payload}
use iot_yk.Packet.Write.{serialise, body_bytes}
use iot_yk.Packet.Read.{parse}
use iot_yk.Packet.RoundTrip.{IsSendable, received, parse-serialise}
use iot_yk.Packet.Ownership.{IsSafe, parse-IsSafe}

abbrev buffer : List ℕ
buffer = replicate 512 0

abbrev command : Packet
command = record {
  header = record {
    magic = (0x59, 0x4b);
    version = 5;
    flags = 1;
    packet_id = 0x12345678;
    session_id = 77;
    source_id = b'd' ∷ b'e' ∷ b'v' ∷ 0 ∷ 0 ∷ 0 ∷ 0 ∷ 0 ∷ [];
    dest_id = b'S' ∷ 0 ∷ 0 ∷ 0 ∷ 0 ∷ 0 ∷ 0 ∷ 0 ∷ [];
    route_type = 6;
    service_id = 1;
    action_id = 3;
    payload_len = 3;
  };
  payload = heap (0xbf ∷ 3 ∷ 0xff ∷ []);
  auth_tag = replicate 16 9;
  payload_len = 3;
}

abbrev command_body : List ℕ
command_body = 0xbf ∷ 3 ∷ 0xff ∷ []

command-IsSendable : IsSendable buffer command command_body
unfolding body_bytes
command-IsSendable = record {
  fields = record {
    packet_id_fits = omega arith;
    session_id_fits = omega arith;
    source_id_len = refl;
    dest_id_len = refl;
  };
  carries = refl;
  body_len = refl;
  tag_len = refl;
  fits = omega arith;
}

parse-serialise_example :
    (sent : List ℕ) × (rx' : List ℕ) × (serialise buffer command buffer 64 ≡ done (52, sent))
    × (parse buffer sent 52 zeroed ≡ done (true, received command, rx'))
    × (take 3 rx' ≡ command_body)
parse-serialise_example =
    parse-serialise buffer buffer command zeroed command_body buffer 64 command-IsSendable
      (omega arith) (omega arith) refl

-- 60 arbitrary bytes.
parse-IsSafe_example : IsSafe 60 (parse buffer (replicate 60 0x59) 60 zeroed)
parse-IsSafe_example = parse-IsSafe buffer (replicate 60 0x59) 60 zeroed refl (omega arith)

-- A header with the encryption flag and a long name; then a payload that finds no memory.
set_header_flags : (set_header zeroed 5 6 (some (b'a' ∷ [])) none 7 1 2 2 true).header.flags ≡ 6
unfolding set_header
set_header_flags = refl

set_payload_no_room : set_payload false zeroed (some command_body) 3 ≡ done zeroed
unfolding set_payload zeroed
set_payload_no_room = refl
