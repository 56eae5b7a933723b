-- ===== src/Dispatch.antt =====
-- esp32-firmware/main/main.c: the global state, the handshake and the dispatcher of packets. What
-- the platform answers during a call is a record, the cryptography is another; log lines and the
-- printout of a packet are left out.
pub mod Incoming
pub mod Guard
pub mod Manager
pub mod Loop
pub mod Start
pub mod Provisioned
pub mod Forged
mod Examples
use iot_yk.Base.{
  ℕ, Bool, false, not, Option, none, some, List, [], ◌∷◌, ◌++◌, ◌==◌, if◌then◌else◌, length,
}
use iot_yk.Base.Bytes.{Run, done, fault, ◌>>=◌}
use iot_yk.Packet.{zeroed, set_header}
use iot_yk.Tlv.{Builder, builder_init, add_string, add_bytes}
use iot_yk.Session.{Session, hello_sent, ecdh_sent, next_packet_id}
use iot_yk.Session
use iot_yk.Security.{SessionKeys}
use iot_yk.Security.Keys.{SecurityCtx, NewPair, gen_ephemeral, sign}
use iot_yk.Replay.{ReplayCtx}
use iot_yk.Qos.{Engine}
use iot_yk.Qos
use iot_yk.Report.{Memory, emit}
use iot_yk.Io.{Effect, c_string, server_name, firmware_version}
use iot_yk.Io
use iot_yk.Relay.{Relay}
use iot_yk.Sensor.{Sensor, Reading}
use iot_yk.Health.{Health, Metrics}
use iot_yk.Ota.{Ota, Driver}
use iot_yk.Ota

-- The global variables, those of the services among them.
pub record World : Type 0 where
  pub sec_ctx : SecurityCtx
  pub session : Session
  pub replay : ReplayCtx
  pub qos : Engine
  pub device_id : List ℕ
  pub relay : Relay
  pub sensor : Sensor
  pub health : Health
  pub ota : Ota

-- What the platform answers during a call. `stack` gives the buffers of a sender by their sizes;
-- `fuel` bounds the rounds of a lookup.
pub record Platform : Type 0 where
  pub connected : Bool
  pub ble : Bool
  pub time_us : ℕ
  pub stack : ℕ → ℕ → Memory
  pub reading : Reading
  pub metrics : Metrics
  pub drv : Driver
  pub new_pair : Option NewPair
  pub fuel : ℕ

-- PSA: the calls of the security context, AES-GCM decryption, and the hash of an image.
pub record Crypto : Type 0 where
  pub import_key : List ℕ → Bool
  pub agree : List ℕ → List ℕ → Option (List ℕ)
  pub hkdf : List ℕ → List ℕ → Bool × List ℕ
  pub sha256 : List ℕ → Option (List ℕ)
  pub sign_hash : List ℕ → List ℕ → Option (List ℕ)
  pub aead_decrypt : List ℕ → List ℕ → List ℕ → List ℕ → Option (List ℕ)
  pub image_hash : List ℕ → List ℕ
  pub float_of : ℕ → ℕ

pub data Output : Type 0 where
  ws_send : List ℕ → Output
  io : Effect → Output
  ota_call : Ota.Call → Output
  qos_call : Qos.Call → Output

unfoldable pub ykp_send_packet : Bool → List ℕ → List Output
ykp_send_packet connected raw = if connected then ws_send raw ∷ [] else []

-- The services' calls, with `ykp_send_packet` as their send function.
unfoldable pub service_outputs : Bool → List Effect → List Output
unfolding ykp_send_packet
service_outputs connected [] = []
service_outputs connected (Io.send raw ∷ es) =
    ykp_send_packet connected raw ++ service_outputs connected es
service_outputs connected (e ∷ es) = io e ∷ service_outputs connected es

unfoldable pub ota_outputs : Bool → List Ota.Call → List Output
unfolding ykp_send_packet
ota_outputs connected [] = []
ota_outputs connected (Ota.send raw ∷ cs) =
    ykp_send_packet connected raw ++ ota_outputs connected cs
ota_outputs connected (c ∷ cs) = ota_call c ∷ ota_outputs connected cs

unfoldable pub qos_timer_callback : Platform → World → World × List Qos.Call
qos_timer_callback p w =
    let (calls, engine) = Qos.tick w.qos p.time_us in (record w { qos = engine }, calls)

-- `if (raw_len > 0) ykp_ws_send(raw, raw_len)`
abbrev pub ws_some : List ℕ → List Output
ws_some raw = if length raw == 0 then [] else ws_send raw ∷ []

-- `ykp_session_reset`; the flag that it clears is the one of the security context.
unfoldable pub reset_session : World → World
reset_session w =
    let ctx = w.sec_ctx in
    let keys = ctx.session in
    let session = w.session in
    let cleared = Session.reset (record session { sec_ctx = some keys.active }) in
    record w {
      session = cleared;
      sec_ctx = record ctx {
        session = record keys {
          active = elim cleared.sec_ctx [ none ↦ keys.active | some flag ↦ flag ];
        };
      };
    }

-- A packet of the handshake, built over a map, and the state after it.
unfoldable pub send_handshake :
    Platform → Memory → Builder → ℕ → Session.SessionState → World → Run (World × List Output)
send_handshake p mem b action_id state w =
    let (packet_id, counted) = next_packet_id p.time_us w.session in
    let pkt =
      set_header zeroed packet_id 0 (some (c_string w.device_id)) (some server_name) 0x06 0x06
        action_id 1 false in
    let sent = emit mem 256 pkt b >>= λ raw.
    done (record w { session = record counted { state = state } }, ws_some raw) in
    if not mem.packet_room then done (w, []) else sent

unfoldable pub send_hello : Platform → World → Run (World × List Output)
unfolding send_handshake
send_hello p w =
    let (made, ctx, offset) = gen_ephemeral p.new_pair w.sec_ctx in
    let w' = record w { sec_ctx = ctx } in
    let mem = p.stack 128 256 in
    let b0 = builder_init mem.tlv_buf 128 in
    let b1 = (add_string b0 0x01 (c_string w.device_id)).1 in
    let b2 = (add_bytes b1 0x09 ctx.ephemeral_public).1 in
    let b3 = (add_string b2 0x08 firmware_version).1 in
    if not made then done (w', []) else send_handshake p mem b3 0x01 hello_sent w'

-- The response with the signature of the server's nonce; nothing where there is none.
unfoldable pub respond : Platform → World → Option (List ℕ) → Run (World × List Output)
unfolding send_handshake
respond p w none = done (w, [])
respond p w (some signature) =
    let mem = p.stack 128 256 in
    let b0 = builder_init mem.tlv_buf 128 in
    let b1 = (add_string b0 0x01 (c_string w.device_id)).1 in
    let b2 = (add_bytes b1 0x0b signature).1 in send_handshake p mem b2 0x03 ecdh_sent w

unfoldable pub send_ecdh_response : Crypto → Platform → World → Run (World × List Output)
unfolding respond
send_ecdh_response c p w =
    respond p w (sign c.import_key c.sha256 c.sign_hash w.sec_ctx w.session.server_nonce)

-- The callbacks of the WebSocket.
unfoldable pub on_ws_connected : Platform → World → Run (World × List Output)
on_ws_connected p w = send_hello p w

unfoldable pub on_ws_disconnected : World → World
on_ws_disconnected w = reset_session w
