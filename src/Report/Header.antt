-- ===== src/Report/Header.antt =====
-- The packets that senders start from: `ykp_packet_alloc`, then `ykp_packet_set_header`.
use iot_yk.Base.{
  ℕ, ◌^◌, ◌<◌, ◌≡◌, refl, Bool, some, List, ◌++◌, length, length-append, length-take,
  length-replicate, replicate, arith,
}
use iot_yk.Base.Bytes.{strncpy}
use iot_yk.Packet.{zeroed, set_header}
use iot_yk.Report.Heard.{IsMessage}

pub length-strncpy : (n : ℕ) (str : List ℕ) → length (strncpy n str) ≡ n
unfolding strncpy
length-strncpy n str = omega (
  arith,
  length-take n (str ++ replicate n 0),
  length-append str (replicate n 0),
  length-replicate {A = ℕ} n 0,
)

pub set_header-IsMessage :
    (packet_id session_id : ℕ) (source_id dest_id : List ℕ)
    (route_type service_id action_id qos : ℕ) (encrypted : Bool)
    → packet_id < 2 ^ 32
    → session_id < 2 ^ 32
    → IsMessage (
        set_header zeroed packet_id session_id
          (some source_id)
          (some dest_id)
          route_type
          service_id
          action_id
          qos
          encrypted)
unfolding set_header zeroed
set_header-IsMessage packet_id session_id source_id dest_id route_type service_id action_id qos
      encrypted h k =
    record {
      fields = record {
        packet_id_fits = h;
        session_id_fits = k;
        source_id_len = length-strncpy 8 source_id;
        dest_id_len = length-strncpy 8 dest_id;
      };
      empty = refl;
      no_len = refl;
      tag_len = refl;
    }
