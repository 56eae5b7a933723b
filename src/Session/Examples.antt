-- ===== src/Session/Examples.antt =====
-- The theorems of the session at concrete clock readings and nonces.
use iot_yk.Base.{ℕ, ◌≡◌, refl, true, false, ◌||◌, some, List, [], ◌∷◌, arith, replicate}
use iot_yk.Replay.{ReplayCtx, init as replay_init, passed}
use iot_yk.Session.{Session, init, active, ecdh_sent, set_active, next_packet_id, rotation_due}
use iot_yk.Session.Ids.{packet_ids, range, packet_ids-passed}
use iot_yk.Session.Rotation.{any_late, count_reached, rotation_due-packet_ids}
use iot_yk.Session.Reset.{
  Op, take_id, activate, nonce, enter, use_session, Forgets, use_session-Forgets,
}

abbrev window : ReplayCtx
window = record { highest_id = 77; window_bits = 1; initialised = true }

-- Packets at 2 s, 3 s and 31 minutes.
abbrev clock : List ℕ
clock = 2000000 ∷ 3000000 ∷ 1860000000 ∷ []

-- A session that became active at 1 s.
abbrev running : Session
running = record {
  state = active;
  session_id = 9;
  packet_counter = 1;
  rx_counter = 0;
  key_rotate_at = 1000;
  session_start_ms = 1000;
  server_nonce = replicate 16 0;
  needs_key_rotate = false;
  sec_ctx = some true;
}

packet_ids-clock : (packet_ids running clock).0 ≡ 2 ∷ 3 ∷ 4 ∷ []
unfolding packet_ids next_packet_id
packet_ids-clock = refl

packet_ids-passed_example :
    let ids = (packet_ids (set_active 1000000 9 running) clock).0 in
    (ids ≡ range 2 3) × (passed (replay_init window) ids ≡ ids)
packet_ids-passed_example = packet_ids-passed running window 1000000 9 clock (omega arith)

rotation_due-packet_ids_example :
    rotation_due (packet_ids running clock).1
    ≡ (rotation_due running || any_late 1000 clock || count_reached 1000 1 3)
rotation_due-packet_ids_example = rotation_due-packet_ids running clock (omega arith)

rotation_due-clock : rotation_due (packet_ids running clock).1 ≡ true
unfolding rotation_due packet_ids next_packet_id
rotation_due-clock = refl

-- A short nonce, an activation and two packets.
abbrev handshake : List Op
handshake =
    nonce (1 ∷ 2 ∷ 3 ∷ []) 3
    ∷ enter ecdh_sent
    ∷ activate 1000000 9
    ∷ take_id 2000000
    ∷ take_id 3000000
    ∷ []

use_session-Forgets_example : Forgets (init (some true)) (use_session handshake (init (some true)))
unfolding init
use_session-Forgets_example =
    use_session-Forgets handshake (init (some true)) (omega arith, (tt, (tt, (tt, (tt, tt))))) refl
