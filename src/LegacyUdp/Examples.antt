-- ===== src/LegacyUdp/Examples.antt =====
-- The theorems on the UDP server at one datagram.
use iot_yk.Base.{ℕ, ◌≡◌, refl, true, false, Option, some, List, [], ◌∷◌, replicate, arith}
use iot_yk.Base.Looking.{Ends}
use iot_yk.Report.{Memory}
use iot_yk.Report.Found.{IsMemory}
use iot_yk.Relay.{Relay}
use iot_yk.LegacyUdp.{Server, round, rate_check, of_le4}
use iot_yk.LegacyUdp.Rate.{IsServer, Bounded, round-Bounded}
use iot_yk.LegacyUdp.Again.{Arrival, AllObeyed, round-Again}
use iot_yk.LegacyUdp.Once.{Incoming, Refuses, round-Once}

abbrev stack : Memory
stack = record {
  rx_buf = replicate 512 0;
  tlv_buf = replicate 64 0;
  raw = replicate 256 0;
  packet_room = true;
  payload_room = true;
}

stack-IsMemory : IsMemory 64 256 stack
stack-IsMemory = record { tlv_len = refl; raw_len = refl }

abbrev lamp : Relay
lamp = record { state = false; has_send = true; device_id = 76 ∷ []; has_session = true }

-- In session 9, after the command with the given counter.
abbrev server : ℕ → Server
server last = record {
  session_id = 9;
  tx_counter = 1;
  last_rx_counter = last;
  packet_count = 3;
  last_rate_check_ms = 1000;
  last_activity_ms = 1000;
}

server-IsServer : (last : ℕ) → IsServer (server last)
server-IsServer last = record {
  session_fits = omega arith;
  tx_fits = omega arith;
  few = omega arith;
}

abbrev datagram_of : ℕ → List ℕ
datagram_of counter = 9 ∷ 0 ∷ 0 ∷ 0 ∷ counter ∷ 0 ∷ 0 ∷ 0 ∷ replicate 17 7

abbrev sealer : List ℕ → ℕ → Option (List ℕ)
sealer nonce plain = some (replicate 17 plain)

abbrev opener : List ℕ → List ℕ → Option ℕ
opener nonce text = some 0x01

round-Bounded_example :
    Bounded (round stack true sealer opener 77 1500 (datagram_of 6) (server 5) lamp)
round-Bounded_example =
    round-Bounded stack stack-IsMemory true sealer opener 77 1500 (datagram_of 6) (server 5) lamp
      (omega arith) (server-IsServer 5)

-- The command with the counter 6 comes, comes again, and one with the counter 2 comes.
abbrev replayed : List Incoming
replayed =
    record { random = 77; now_ms = 1600; packet = datagram_of 6 }
    ∷ record { random = 78; now_ms = 1700; packet = datagram_of 2 }
    ∷ []

round-Once_example :
    Ends
      (λ o. (o.0.last_rx_counter ≡ 6) × Refuses stack true sealer opener 6 replayed o.0 o.1)
      (round stack true sealer opener 77 1500 (datagram_of 6) (server 5) lamp)
unfolding of_le4 rate_check
round-Once_example =
    round-Once stack stack-IsMemory true sealer opener 77 1500 0x01 (datagram_of 6) replayed
      (server 5) lamp (server-IsServer 5) (omega arith) (omega arith, (omega arith, tt)) refl refl
      (omega arith) refl (omega arith) (omega arith)

abbrev twice : List Arrival
twice = record { random = 77; now_ms = 1500 } ∷ record { random = 78; now_ms = 2600 } ∷ []

round-Again_example : AllObeyed stack true sealer opener (datagram_of 0) twice (server 0) lamp
unfolding of_le4 rate_check
round-Again_example =
    round-Again stack stack-IsMemory true sealer opener (datagram_of 0) refl refl refl twice
      (server 0) lamp (omega arith) (omega arith) refl refl
      (omega arith, omega arith, (omega arith, omega arith, tt))
