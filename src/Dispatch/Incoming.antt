-- ===== src/Dispatch/Incoming.antt =====
-- `handle_incoming_packet` of esp32-firmware/main/main.c.
use mathlib.Core.List.{map}
use iot_yk.Base.{ℕ, not, ◌&&◌, Option, none, some, List, [], ◌++◌, ◌==◌, if◌then◌else◌}
use iot_yk.Base.{bit_and}
use iot_yk.Base.Bytes.{Run, done, ◌>>=◌, split_at}
use iot_yk.Packet.{Packet, zeroed, is_null, free_payload}
use iot_yk.Packet.Read.{parse}
use iot_yk.Tlv.Find.{Tlv, find}
use iot_yk.Tlv.Read.{read_uint32}
use iot_yk.Session.{is_active, set_active, store_nonce}
use iot_yk.Security.{decrypt}
use iot_yk.Security.Keys.{derive_session_key}
use iot_yk.Replay
use iot_yk.Qos
use iot_yk.Relay
use iot_yk.Sensor.{sensor_service_send_report}
use iot_yk.Health.{health_service_send_report}
use iot_yk.Base.Looking.{Looking, ◌>>=?◌}
use iot_yk.Ota.{ota_service_handle}
use iot_yk.Dispatch.{
  World, Platform, Crypto, Output, qos_call, service_outputs, ota_outputs, reset_session,
  send_hello, send_ecdh_response,
}

-- What a packet leads to: the state, the receive buffer, and the outputs.
abbrev pub Outcome : Type 0
Outcome = World × List ℕ × List Output

module _ (c : Crypto) (p : Platform) where
  -- A lookup in the payload, if there is one.
  unfoldable pub look : List ℕ → Packet → ℕ → Looking (Option Tlv)
  look rx_buf pkt type =
      if not (is_null pkt.payload)
      then find p.fuel rx_buf pkt.payload_len type
      else some (done none)

  unfoldable pub take_nonce : Option Tlv → World → Run World
  take_nonce none w = done w
  take_nonce (some tlv) w = store_nonce tlv.value tlv.length w.session >>= λ session.
      done (record w { session = session })

  -- The server's key, 65 bytes from the entry's value on; the answer of the derivation is ignored.
  unfoldable pub take_key : ℕ → Option Tlv → World → Run World
  take_key pkt_id none w = done w
  take_key pkt_id (some tlv) w = split_at 65 tlv.value >>= λ (srv_pub, behind). done (record w {
    sec_ctx =
        (derive_session_key c.import_key c.agree c.hkdf srv_pub w.session.server_nonce pkt_id
          w.sec_ctx).1;
  })

  unfoldable pub challenge : List ℕ → Packet → World → Looking (World × List Output)
  challenge rx_buf pkt w = look rx_buf pkt 0x0a >>=? λ nonce. some (take_nonce nonce w) >>=? λ w1.
      look rx_buf pkt 0x09 >>=? λ key.
      some (take_key pkt.header.packet_id key w1) >>=? λ w2. some (send_ecdh_response c p w2)

  -- The session id of an activation: the packet's id, or the number in the payload.
  unfoldable pub announced_id : ℕ → Option Tlv → Run ℕ
  announced_id pkt_id none = done pkt_id
  announced_id pkt_id (some tlv) =
      read_uint32 tlv >>= λ out. done (elim out [ none ↦ pkt_id | some session_id ↦ session_id ])

  unfoldable pub activate : ℕ → World → World
  activate session_id w =
      let ctx = w.sec_ctx in
      let keys = ctx.session in
      record w {
        session = set_active p.time_us session_id w.session;
        sec_ctx = record ctx { session = record keys { session_id = session_id } };
        replay = Replay.reset w.replay;
      }

  unfoldable pub session_active : List ℕ → Packet → World → Looking (World × List Output)
  unfolding activate
  session_active rx_buf pkt w = look rx_buf pkt 0x04 >>=? λ found.
      some (announced_id pkt.header.packet_id found) >>=? λ session_id.
      some (done (activate session_id w, []))

  unfoldable pub key_rotate : World → Looking (World × List Output)
  key_rotate w = some (send_hello p (reset_session w))

  unfoldable pub handle_security : List ℕ → Packet → World → Looking (World × List Output)
  handle_security rx_buf pkt w =
      if pkt.header.action_id == 0x02
      then challenge rx_buf pkt w
      else if pkt.header.action_id == 0x04
      then session_active rx_buf pkt w
      else if pkt.header.action_id == 0x05
      then key_rotate w
      else some (done (w, []))

  -- The service that the header names.
  unfoldable pub serve : List ℕ → Packet → World → Looking (World × List Output)
  serve rx_buf pkt w =
      let action = pkt.header.action_id in
      let relay = some (
        Relay.handle (p.stack 64 256) p.ble action pkt.header.packet_id pkt.header.session_id
          pkt.header.source_id w.relay
        >>= λ (r, made). done (record w { relay = r }, service_outputs p.connected made)) in
      let sensor = some (
        sensor_service_send_report (p.stack 128 300) p.time_us p.reading w.sensor >>= λ made.
        done (w, service_outputs p.connected made)) in
      let health = some (
        health_service_send_report c.float_of (p.stack 256 512) p.metrics w.health >>= λ made.
        done (w, service_outputs p.connected made)) in
      let update =
        ota_service_handle (p.stack 8 80) p.drv c.image_hash p.fuel rx_buf pkt.payload_len action
          w.ota
        >>=? λ (o, made). some (done (record w { ota = o }, ota_outputs p.connected made)) in
      if pkt.header.service_id == 0x01
      then relay
      else if pkt.header.service_id == 0x02
      then sensor
      else if pkt.header.service_id == 0x04
      then (if action == 0x02 then health else some (done (w, [])))
      else if pkt.header.service_id == 0x05
      then update
      else some (done (w, []))

  -- The payload in place of its ciphertext; `none` for a packet that does not decrypt.
  unfoldable pub open_payload : List ℕ → List ℕ → Packet → World → Run (Option (List ℕ))
  open_payload raw rx_buf pkt w =
      let clear = split_at 33 raw >>= λ (aad, behind).
      split_at pkt.payload_len rx_buf >>= λ (body, rest).
      done
        (elim (decrypt c.import_key c.aead_decrypt w.sec_ctx.session pkt.header.packet_id aad body
          pkt.auth_tag) [ none ↦ none | some plain ↦ some (plain ++ rest) ]) in
      if not (bit_and pkt.header.flags 0x04 == 0) && not (is_null pkt.payload)
      then clear
      else done (some rx_buf)

  -- A packet that has passed the replay window.
  unfoldable pub admit : List ℕ → List ℕ → Packet → World → Looking Outcome
  unfolding open_payload
  admit raw rx_buf pkt w = some (open_payload raw rx_buf pkt w) >>=? λ opened. elim opened [
    | none ↦ some (done (w, rx_buf, []))
    | some clear ↦ serve clear pkt w >>=? λ (w', made). some (done (w', clear, made))
  ]

  -- A packet for a service.
  unfoldable pub guarded : List ℕ → List ℕ → Packet → World → Looking Outcome
  unfolding admit
  guarded raw rx_buf pkt w =
      let (fresh, replay) = Replay.check w.replay pkt.header.packet_id in
      let w' = record w { replay = replay } in
      if not (is_active w.session)
      then some (done (w, rx_buf, []))
      else if not fresh
      then some (done (w', rx_buf, []))
      else admit raw rx_buf pkt w'

  unfoldable pub dispatch : List ℕ → List ℕ → Packet → World → Looking Outcome
  unfolding guarded
  dispatch raw rx_buf pkt w =
      let (calls, engine) = Qos.ack w.qos pkt.header.packet_id p.time_us in
      let acked = record w { qos = engine } in
      if not (bit_and pkt.header.flags 0x10 == 0)
      then some (done (acked, rx_buf, map qos_call calls))
      else if pkt.header.service_id == 0x06
      then (handle_security rx_buf pkt w >>=? λ (w', made). some (done (w', rx_buf, made)))
      else guarded raw rx_buf pkt w

  -- The parse in front, and the payload freed behind.
  unfoldable pub handle_incoming_packet : List ℕ → List ℕ → ℕ → World → Looking Outcome
  unfolding dispatch
  handle_incoming_packet rx_buf raw raw_len w =
      some (parse rx_buf raw raw_len zeroed) >>=? λ (valid, pkt, rx_buf').
      let handled = dispatch raw rx_buf' pkt w >>=? λ outcome.
      some (free_payload pkt) >>=? λ freed. some (done outcome) in
      if not valid then some (done (w, rx_buf', [])) else handled
