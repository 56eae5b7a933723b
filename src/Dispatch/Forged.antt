-- ===== src/Dispatch/Forged.antt =====
-- Packets of 49 bytes that need no key; main.c.
use iot_yk.Relay.{set_levels}
use iot_yk.Base.{ℕ, ◌≡◌, refl, true, some, List, [], ◌∷◌, ◌++◌, replicate, arith}
use iot_yk.Base.Bytes.{done}
use iot_yk.Packet.{Packet, zeroed, null, free_payload}
use iot_yk.Packet.Read.{parse, validate_header, read_header, read_body, read_tag}
use iot_yk.Wire.{read_u16_be, read_u32_be}
use iot_yk.Session.{is_active, set_active}
use iot_yk.Replay
use iot_yk.Report.Found.{IsMemory}
use iot_yk.Relay
use iot_yk.Relay.Pins.{report_state-total}
use iot_yk.Dispatch.{World, Platform, Crypto, Output, service_outputs}
use iot_yk.Dispatch.Incoming.{
  handle_incoming_packet, dispatch, guarded, admit, open_payload, serve, handle_security,
  session_active, activate, look, announced_id,
}

-- A packet without a payload, its tag all zeros.
abbrev pub bare_raw : ℕ → ℕ → List ℕ
bare_raw service action =
    0x59 ∷ 0x4b ∷ 5 ∷ 0 ∷ 0 ∷ 0 ∷ 0 ∷ 1 ∷ (replicate 21 0 ++ (service ∷ action ∷ replicate 18 0))

abbrev pub bare : ℕ → ℕ → Packet
bare service action = record {
  header = record {
    magic = (0x59, 0x4b);
    version = 5;
    flags = 0;
    packet_id = 1;
    session_id = 0;
    source_id = replicate 8 0;
    dest_id = replicate 8 0;
    route_type = 0;
    service_id = service;
    action_id = action;
    payload_len = 0;
  };
  payload = null;
  auth_tag = replicate 16 0;
  payload_len = 0;
}

pub parse-bare :
    (rx_buf : List ℕ) (service action : ℕ)
    → parse rx_buf (bare_raw service action) 49 zeroed ≡ done (true, bare service action, rx_buf)
unfolding parse validate_header read_header read_body read_tag zeroed read_u32_be read_u16_be
parse-bare rx_buf service action = refl

module _ (c : Crypto) (p : Platform) (rx_buf : List ℕ) where
  activation_lem :
      (w : World)
      → handle_incoming_packet c p rx_buf (bare_raw 6 4) 49 w
        ≡ some (done (activate c p 1 w, rx_buf, []))
  unfolding handle_incoming_packet dispatch handle_security session_active look announced_id
      free_payload
  activation_lem w = rw (parse-bare rx_buf 6 4)

  -- From any state, with whatever keys: a packet that names itself an activation of the session,
  -- then a packet that names itself a relay command, neither with a tag or a ciphertext that a key
  -- is needed for, run to their end and turn the relay on.
  pub forged-TurnsOn :
      (w : World)
      → IsMemory 64 256 (p.stack 64 256)
      → (w1 w2 : World) × (made : List Output) × (handle_incoming_packet c p rx_buf
            (bare_raw 6 4)
            49
            w
          ≡ some (done (w1, rx_buf, [])))
        × (handle_incoming_packet c p rx_buf (bare_raw 1 1) 49 w1 ≡ some (done (w2, rx_buf, made)))
        × (w2.relay.state ≡ true)
  unfolding handle_incoming_packet dispatch guarded admit open_payload serve free_payload activate
      is_active set_active Replay.check Replay.check_started Replay.reset Replay.init Relay.handle
  forged-TurnsOn w m =
      let w1 = activate c p 1 w in
      let relay = w.relay in
      let (made, e, same) =
        report_state-total (p.stack 64 256) m p.ble 1 0 (replicate 8 0)
          (record relay { state = true }) (set_levels true) (omega arith) (omega arith) in
      (
        w1,
        record w1 {
          relay = record relay { state = true };
          replay = record { highest_id = 1; window_bits = 1; initialised = true };
        },
        service_outputs p.connected made,
        activation_lem w,
        rw (parse-bare rx_buf 1 1) (rw e),
        refl,
      )
