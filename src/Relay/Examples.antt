-- ===== src/Relay/Examples.antt =====
-- The relay's theorems at a lamp that a server turns on.
use iot_yk.Io.{server_name}
use iot_yk.Base.{ℕ, true, false, List, [], ◌∷◌, ◌++◌, ◌≡◌, refl, replicate, arith}
use iot_yk.Base.Bytes.{done}
use iot_yk.Packet.{zeroed}
use iot_yk.Session.{init}
use iot_yk.Report.{Memory}
use iot_yk.Report.Found.{IsMemory}
use iot_yk.Io.{send}
use iot_yk.Relay.{Relay, handle}
use iot_yk.Relay.Acks.{Acked, changes, told, expected_ack, handle-Acked}
use iot_yk.Relay.Pins.{Event, command, button, run, Follows, run-Follows}
use iot_yk.Base.{none}

abbrev stack : Memory
stack = record {
  rx_buf = [];
  tlv_buf = replicate 64 0;
  raw = replicate 256 0;
  packet_room = true;
  payload_room = true;
}

stack-IsMemory : IsMemory 64 256 stack
stack-IsMemory = record { tlv_len = refl; raw_len = refl }

abbrev lamp : Relay
lamp = record { state = false; has_send = true; device_id = 76 ∷ 49 ∷ []; has_session = true }

handle-Acked_example :
    (sent : List ℕ) × (handle stack true 1 7 9 server_name lamp
      ≡ done (record lamp { state = true }, changes 1 true ++ (send sent ∷ told true true)))
    × Acked true (expected_ack 7 9 (76 ∷ 49 ∷ []) server_name) (replicate 512 0) zeroed sent
handle-Acked_example =
    handle-Acked stack true 1 7 9 server_name lamp true (replicate 512 0) zeroed stack-IsMemory refl
      refl refl (omega arith) (omega arith) refl refl

abbrev evening : List Event
evening =
    command true 1 7 9 server_name ∷ button false 0 5000000 ∷ command true 3 8 9 server_name ∷ []

run-Follows_example : Follows (λ pin. 0) (init none) (run stack evening (init none) lamp)
unfolding init
run-Follows_example =
    run-Follows stack stack-IsMemory evening (init none) lamp (λ pin. 0)
      (omega arith, omega arith, (omega arith, omega arith, tt)) (omega arith) (refl, refl)
