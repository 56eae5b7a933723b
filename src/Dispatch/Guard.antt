-- ===== src/Dispatch/Guard.antt =====
-- What the dispatcher of main.c lets through.
use mathlib.Core.List.{map}
use iot_yk.Qos
use iot_yk.Base.Looking.{Ensures-weaken}
use iot_yk.Packet.{free_payload}
use iot_yk.Tlv.Find.{Tlv}
use iot_yk.Session.{hello_sent}
use iot_yk.Dispatch.Incoming.{announced_id}
use iot_yk.Security.Keys.{gen_ephemeral}
use iot_yk.Dispatch.{ws_some}
use iot_yk.Session.{ecdh_sent}
use iot_yk.Dispatch.Incoming.{look, take_nonce, take_key}
use iot_yk.Session.{SessionState}
use iot_yk.Tlv.{Builder}
use iot_yk.Report.{Memory}
use iot_yk.Base.{
  ℕ, ◌≡◌, inl, inr, refl, ◌∙◌, Bool, true, false, not, ◌&&◌, Option, none, some, List, [], ◌∷◌,
  ◌==◌, Bool-cases, length,
}
use iot_yk.Base.{bit_and}
use iot_yk.Base.Bytes.{done}
use iot_yk.Base.Looking.{
  Ensures, Ensures-any, Ensures-then, Ensures-map, Ensures-if, Ensures-run_if,
}
use iot_yk.Packet.{Packet, zeroed}
use iot_yk.Packet.Read.{parse}
use iot_yk.Session.{is_active}
use iot_yk.Replay
use iot_yk.Dispatch.{
  World, Platform, Crypto, Output, io, ota_call, qos_call, reset_session, send_hello,
  send_ecdh_response, respond, send_handshake,
}
use iot_yk.Dispatch.Incoming.{
  Outcome, handle_incoming_packet, dispatch, guarded, handle_security, challenge, session_active,
  key_rotate,
}

-- A packet may go to a service: it is no acknowledgement and not for the handshake, a session is
-- active, and the replay window takes its id.
unfoldable pub admissible : World → Packet → Bool
admissible w pkt =
    bit_and pkt.header.flags 0x10 == 0
    && not (pkt.header.service_id == 0x06)
    && is_active w.session
    && (Replay.check w.replay pkt.header.packet_id).0

-- No call of a driver, of the flash or of the BLE client.
unfoldable pub no_service : List Output → Bool
no_service [] = true
no_service (io e ∷ os) = false
no_service (ota_call e ∷ os) = false
no_service (o ∷ os) = no_service os

-- The services are as they were.
abbrev pub Untouched : World → Outcome → Type 0
Untouched w r = (r.0.relay ≡ w.relay) × (r.0.ota ≡ w.ota) × (no_service r.2 ≡ true)

module _ (c : Crypto) (p : Platform) where
  -- A step of the handshake.
  abbrev Keeps : World → World × List Output → Type 0
  Keeps w r = (r.0.relay ≡ w.relay) × (r.0.ota ≡ w.ota) × (no_service r.1 ≡ true)

  abbrev Same : World → World → Type 0
  Same w w' = (w'.relay ≡ w.relay) × (w'.ota ≡ w.ota)

  no_service-ws_some : (raw : List ℕ) → no_service (ws_some raw) ≡ true
  unfolding no_service
  no_service-ws_some raw = elim (Bool-cases (length raw == 0)) [ inl a ↦ rw a | inr a ↦ rw a ]

  send_handshake-Keeps :
      (mem : Memory) (b : Builder) (action_id : ℕ) (state : SessionState) (w : World)
      → Ensures (Keeps w) (some (send_handshake p mem b action_id state w))
  unfolding send_handshake no_service
  send_handshake-Keeps mem b action_id state w =
      Ensures-run_if (Keeps w) (not mem.packet_room) _ _ (refl, refl, refl)
        (Ensures-map (Keeps w) _ _ (λ raw. (refl, refl, no_service-ws_some raw)))

  respond-Keeps :
      (w : World) (signature : Option (List ℕ)) → Ensures (Keeps w) (some (respond p w signature))
  unfolding respond no_service
  respond-Keeps w none = (refl, refl, refl)
  respond-Keeps w (some signature) = send_handshake-Keeps (p.stack 128 256) _ 0x03 ecdh_sent w

  send_hello-Keeps : (w : World) → Ensures (Keeps w) (some (send_hello p w))
  unfolding send_hello no_service
  send_hello-Keeps w =
      let (made, ctx, offset) = gen_ephemeral p.new_pair w.sec_ctx in
      Ensures-run_if (Keeps w) (not made) _ _ (refl, refl, refl)
        (send_handshake-Keeps (p.stack 128 256) _ 0x01 hello_sent (record w { sec_ctx = ctx }))

  take_nonce-Same :
      (found : Option Tlv) (w : World) → Ensures (Same w) (some (take_nonce c p found w))
  unfolding take_nonce
  take_nonce-Same none w = (refl, refl)
  take_nonce-Same (some tlv) w = Ensures-map (Same w) _ _ (λ session. (refl, refl))

  take_key-Same :
      (pkt_id : ℕ) (found : Option Tlv) (w : World)
      → Ensures (Same w) (some (take_key c p pkt_id found w))
  unfolding take_key
  take_key-Same pkt_id none w = (refl, refl)
  take_key-Same pkt_id (some tlv) w = Ensures-map (Same w) _ _ (λ session. (refl, refl))

  challenge-Keeps :
      (rx_buf : List ℕ) (pkt : Packet) (w : World) → Ensures (Keeps w) (challenge c p rx_buf pkt w)
  unfolding challenge send_ecdh_response
  challenge-Keeps rx_buf pkt w = Ensures-any (Keeps w) (look c p rx_buf pkt 0x0a) _ (λ nonce.
      Ensures-then (Keeps w) (Same w) (some (take_nonce c p nonce w)) _ (take_nonce-Same nonce w)
        (λ w1 same1. Ensures-any (Keeps w) (look c p rx_buf pkt 0x09) _ (λ key.
          Ensures-then (Keeps w) (Same w1) (some (take_key c p pkt.header.packet_id key w1)) _
            (take_key-Same pkt.header.packet_id key w1)
            (λ w2 same2.
              Ensures-weaken (Keeps w2) (Keeps w) (some (send_ecdh_response c p w2))
                (λ r h. (h.0 ∙ same2.0 ∙ same1.0, h.1 ∙ same2.1 ∙ same1.1, h.2))
                (respond-Keeps w2 _)))))

  session_active-Keeps :
      (rx_buf : List ℕ) (pkt : Packet) (w : World)
      → Ensures (Keeps w) (session_active c p rx_buf pkt w)
  unfolding session_active no_service
  session_active-Keeps rx_buf pkt w = Ensures-any (Keeps w) (look c p rx_buf pkt 0x04) _ (λ found.
      Ensures-any (Keeps w) (some (announced_id c p pkt.header.packet_id found)) _
        (λ id. (refl, refl, refl)))

  handle_security-Keeps :
      (rx_buf : List ℕ) (pkt : Packet) (w : World)
      → Ensures (Keeps w) (handle_security c p rx_buf pkt w)
  unfolding handle_security key_rotate no_service reset_session
  handle_security-Keeps rx_buf pkt w =
      Ensures-if (Keeps w) (pkt.header.action_id == 0x02) _ _ (challenge-Keeps rx_buf pkt w) (
        Ensures-if (Keeps w) (pkt.header.action_id == 0x04) _ _ (session_active-Keeps rx_buf pkt w)
          (Ensures-if (Keeps w) (pkt.header.action_id == 0x05) _ _
            (send_hello-Keeps (reset_session w)) (refl, refl, refl)))

  no_service-qos : (calls : List Qos.Call) → no_service (map qos_call calls) ≡ true
  unfolding no_service
  no_service-qos [] = refl
  no_service-qos (q ∷ qs) = no_service-qos qs

  guarded-Untouched :
      (raw rx_buf : List ℕ) (pkt : Packet) (w : World)
      → (is_active w.session && (Replay.check w.replay pkt.header.packet_id).0) ≡ false
      → Ensures (Untouched w) (guarded c p raw rx_buf pkt w)
  unfolding guarded no_service
  guarded-Untouched raw rx_buf pkt w h = elim (Bool-cases (is_active w.session)) [
    | inr idle ↦ rw idle (refl, refl, refl)
    | inl running ↦
        let stale : (Replay.check w.replay pkt.header.packet_id).0 ≡ false = rw running at h in
        rw (running, stale) (refl, refl, refl)
  ]

  dispatch-Untouched :
      (raw rx_buf : List ℕ) (pkt : Packet) (w : World)
      → admissible w pkt ≡ false
      → Ensures (Untouched w) (dispatch c p raw rx_buf pkt w)
  unfolding dispatch admissible no_service
  dispatch-Untouched raw rx_buf pkt w h = elim (Bool-cases (bit_and pkt.header.flags 0x10 == 0)) [
    | inr ack ↦ rw ack (refl, refl, no_service-qos (Qos.ack w.qos pkt.header.packet_id p.time_us).0)
    | inl plain ↦ elim (Bool-cases (pkt.header.service_id == 0x06)) [
      | inl handshake ↦
          rw (plain, handshake)
            (Ensures-then (Untouched w) (Keeps w) (handle_security c p rx_buf pkt w) _
              (handle_security-Keeps rx_buf pkt w) (λ r k. k))
      | inr service ↦
          let refused = rw (plain, service) at h in
          rw (plain, service) (guarded-Untouched raw rx_buf pkt w refused)
    ]
  ]

  -- A packet that does not parse, is an acknowledgement, belongs to the handshake, comes without an
  -- active session, or has an id that the replay window refuses: where the run of the dispatcher
  -- comes to its end, the relay and the update are as they were, and no driver, no flash call and
  -- no BLE client was called.
  pub handle-Untouched :
      (rx_buf rx_buf' raw : List ℕ) (raw_len : ℕ) (w : World) (valid : Bool) (pkt : Packet)
      → parse rx_buf raw raw_len zeroed ≡ done (valid, pkt, rx_buf')
      → (valid && admissible w pkt) ≡ false
      → Ensures (Untouched w) (handle_incoming_packet c p rx_buf raw raw_len w)
  unfolding handle_incoming_packet no_service
  handle-Untouched rx_buf rx_buf' raw raw_len w false pkt parsed h = rw parsed (refl, refl, refl)
  handle-Untouched rx_buf rx_buf' raw raw_len w true pkt parsed h = rw parsed (
      Ensures-then (Untouched w) (Untouched w) (dispatch c p raw rx_buf' pkt w) _
        (dispatch-Untouched raw rx_buf' pkt w h)
        (λ r k. Ensures-any (Untouched w) (some (free_payload pkt)) _ (λ freed. k)))
