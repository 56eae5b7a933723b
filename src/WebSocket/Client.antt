-- ===== src/WebSocket/Client.antt =====
-- The client of esp32-firmware/main/transport/ykp_websocket.c: its state, events and calls, and the test
-- of a server. What esp_websocket_client, esp_tls and the sockets answer are arguments.
use iot_yk.Base.{
  ℕ, zero, suc, ◌+◌, ◌*◌, ◌≤◌, ◌<◌, ◌≡◌, inl, inr, refl, Bool, true, false, not, ◌&&◌, Option, none,
  some, List, [], ◌∷◌, ltb, ◌==◌, if◌then◌else◌, Bool-cases, length, arith,
}
use iot_yk.Base.{lt→ltb}
use iot_yk.Base.Bytes.{Run, done, ◌>>=◌}
use iot_yk.WebSocket.Cert.{cert_pem}

-- `s_ws_client` is there or NULL; a callback is registered or not.
pub record Ws : Type 0 where
  pub client : Bool
  pub connected : Bool
  pub rx_cb : Bool
  pub conn_cb : Bool
  pub disc_cb : Bool

pub data WsEvent : Type 0 where
  connected disconnected error other : WsEvent
  -- An operation code and the bytes.
  received : ℕ → List ℕ → WsEvent

pub data Callback : Type 0 where
  on_connected on_disconnected : Callback
  on_rx : List ℕ → Callback

abbrev call_if : Bool → Callback → List Callback
call_if registered cb = if registered then cb ∷ [] else []

unfoldable pub ws_event_handler : Ws → WsEvent → Ws × List Callback
ws_event_handler ws connected = (record ws { connected = true }, call_if ws.conn_cb on_connected)
ws_event_handler ws disconnected =
    (record ws { connected = false }, call_if ws.disc_cb on_disconnected)
ws_event_handler ws (received op_code bytes) =
    (ws, if op_code == 2 && ltb 0 (length bytes) then call_if ws.rx_cb (on_rx bytes) else [])
ws_event_handler ws error = (ws, [])
ws_event_handler ws other = (ws, [])

-- The state and the answer, the certificates that the client is given, and whether the stored one
-- is erased.
pub record Started : Type 0 where
  pub ws : Ws
  pub answer : Bool
  pub cert_pem : List ℕ
  pub erased : Bool

unfoldable pub ykp_ws_init : (List ℕ → Bool) → Option (List ℕ) → Bool → Ws → Run Started
ykp_ws_init x509_parse stored created ws = cert_pem x509_parse stored >>= λ trusted. done (record {
  ws = record ws { client = created };
  answer = created;
  cert_pem = trusted.0;
  erased = trusted.1;
})

unfoldable pub ykp_ws_connect : Bool → Ws → Bool
ykp_ws_connect started ws = ws.client && started

-- The answer of the client is the number of bytes sent, or an error.
unfoldable pub ykp_ws_send : Option ℕ → List ℕ → Ws → Bool
ykp_ws_send none bytes ws = false
ykp_ws_send (some sent) bytes ws = ws.client && ws.connected && sent == length bytes

unfoldable pub ykp_ws_is_connected : Bool → Ws → Bool
ykp_ws_is_connected client_connected ws = ws.connected && client_connected

unfoldable pub ykp_ws_disconnect : Ws → Ws
ykp_ws_disconnect ws = record ws { client = false; connected = false }

unfoldable pub register_rx_cb : Bool → Ws → Ws
register_rx_cb cb ws = record ws { rx_cb = cb }

unfoldable pub register_connected_cb : Bool → Ws → Ws
register_connected_cb cb ws = record ws { conn_cb = cb }

unfoldable pub register_disconnected_cb : Bool → Ws → Ws
register_disconnected_cb cb ws = record ws { disc_cb = cb }

pub data SocketCall : Type 0 where
  set_timeouts connect_socket close_socket free_addrinfo : SocketCall

-- Whether the name is resolved, the socket is made, and `connect` answers 0.
unfoldable pub ykp_ws_validate_tcp : Bool → Bool → Bool → List SocketCall × Bool
ykp_ws_validate_tcp resolved made ok =
    if not resolved
    then ([], false)
    else if not made
    then (free_addrinfo ∷ [], false)
    else (set_timeouts ∷ connect_socket ∷ close_socket ∷ free_addrinfo ∷ [], ok)

-- What `esp_tls_conn_new_sync` answers: 1, -1, or something else.
pub data TlsAnswer : Type 0 where
  success failed pending : TlsAnswer

-- The rounds of the handshake: an answer, and the microseconds since the start.
unfoldable pub handshake : List (TlsAnswer × ℕ) → Option Bool
handshake [] = none
handshake ((success, elapsed) ∷ rounds) = some true
handshake ((failed, elapsed) ∷ rounds) = some false
handshake ((pending, elapsed) ∷ rounds) =
    let rest = handshake rounds in if ltb 8000000 elapsed then some false else rest

pub data Verdict : Type 0 where
  valid cert_invalid cert_expired : Verdict

unfoldable pub verdict_of : ℕ → Option Bool → Option Verdict
verdict_of now none = none
verdict_of now (some true) = some valid
verdict_of now (some false) = some (if ltb now 1000000000 then cert_expired else cert_invalid)

-- `none` is a handshake that is still going on; `now` is the time of the system.
unfoldable pub ykp_ws_validate_ssl : Bool → List (TlsAnswer × ℕ) → ℕ → Option Verdict
unfolding verdict_of
ykp_ws_validate_ssl has_tls rounds now =
    if not has_tls then some cert_invalid else verdict_of now (handshake rounds)

-- The clock goes on by a delay of 100 ms at least from round to round.
abbrev pub Delayed : ℕ → List (TlsAnswer × ℕ) → Type 0
Delayed t [] = Unit
Delayed t ((answer, elapsed) ∷ rounds) = (t ≤ elapsed) × Delayed (t + 100000) rounds

-- With the clock `t` past the start, the round `n` from there comes too late.
handshake-ends :
    (t n : ℕ) (rounds : List (TlsAnswer × ℕ))
    → Delayed t rounds
    → n < length rounds
    → 8000000 < t + n * 100000
    → (b : Bool) × (handshake rounds ≡ some b)
unfolding handshake
handshake-ends t n [] d l h = absurd (omega arith)
handshake-ends t n ((success, elapsed) ∷ rounds) d l h = (true, refl)
handshake-ends t n ((failed, elapsed) ∷ rounds) d l h = (false, refl)
handshake-ends t zero ((pending, elapsed) ∷ rounds) d l h =
    (false, rw (lt→ltb 8000000 elapsed (omega arith)) refl)
handshake-ends t (suc n) ((pending, elapsed) ∷ rounds) d l h =
    elim (Bool-cases (ltb 8000000 elapsed)) [
      | inl late ↦ (false, rw late refl)
      | inr early ↦ rw early (handshake-ends (t + 100000) n rounds d.1 (omega arith) (omega arith))
    ]

verdict_of-some :
    (now : ℕ) (b : Bool) → (verdict : Verdict) × (verdict_of now (some b) ≡ some verdict)
unfolding verdict_of
verdict_of-some now true = (valid, refl)
verdict_of-some now false = (if ltb now 1000000000 then cert_expired else cert_invalid, refl)

-- The test of a server's certificate ends after at most 82 rounds, whatever the answers, where the
-- clock goes on by the delay of each round.
pub ykp_ws_validate_ssl-ends :
    (has_tls : Bool) (rounds : List (TlsAnswer × ℕ)) (now : ℕ)
    → Delayed 0 rounds
    → 82 ≤ length rounds
    → (verdict : Verdict) × (ykp_ws_validate_ssl has_tls rounds now ≡ some verdict)
unfolding ykp_ws_validate_ssl
ykp_ws_validate_ssl-ends false rounds now d l = (cert_invalid, refl)
ykp_ws_validate_ssl-ends true rounds now d l =
    let (b, ends) = handshake-ends 0 81 rounds d (omega arith) (omega arith) in
    rw ends (verdict_of-some now b)
