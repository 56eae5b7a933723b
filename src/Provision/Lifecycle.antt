-- ===== src/Provision/Lifecycle.antt =====
-- The start and the stop of BLE provisioning in esp32-firmware/main/config/ble_provision.c: the buffers,
-- queues, mutexes and tasks that they make and free, and the key of a session. What can be made is
-- an argument, and so is the SHA-256 of mbedTLS.
use mathlib.Core.List.{map}
use iot_yk.Base.{
  ℕ, zero, suc, ◌+◌, ◌-◌, ◌/◌, ◌%◌, ◌≡◌, refl, Bool, true, false, not, ◌&&◌, ◌||◌, Option, none,
  some, List, [], ◌∷◌, ◌++◌, ltb, if◌then◌else◌, length, replicate, arith,
}
use Prim.Native.Nat.{bit_xor}
use iot_yk.Io.{codes}
use iot_yk.Provision.Session.{Session, Prov, prov_session_clear, update_crc}

-- `s_ble_active`, and whether each pointer is set.
pub record Held : Type 0 where
  pub ble_active : Bool
  pub cert_buffer : Bool
  pub rx_buffer : Bool
  pub rx_queue : Bool
  pub notify_queue : Bool
  pub session_mutex : Bool
  pub cert_mutex : Bool
  pub prov_events : Bool
  pub tasks : Bool

abbrev pub all_held : Bool → Held
all_held b = record {
  ble_active = b;
  cert_buffer = b;
  rx_buffer = b;
  rx_queue = b;
  notify_queue = b;
  session_mutex = b;
  cert_mutex = b;
  prov_events = b;
  tasks = b;
}

-- What `malloc`, FreeRTOS and NimBLE can give.
pub record Room : Type 0 where
  pub cert_room : Bool
  pub rx_room : Bool
  pub rx_queue_room : Bool
  pub notify_queue_room : Bool
  pub session_mutex_room : Bool
  pub cert_mutex_room : Bool
  pub events_room : Bool
  pub nimble : Bool

-- The queues, the mutexes and the event group, made where they are not there.
abbrev made : Room → Held → Held
made a h = record h {
  rx_queue = h.rx_queue || a.rx_queue_room;
  notify_queue = h.notify_queue || a.notify_queue_room;
  session_mutex = h.session_mutex || a.session_mutex_room;
  cert_mutex = h.cert_mutex || a.cert_mutex_room;
  prov_events = h.prov_events || a.events_room;
}

-- All that is there is freed or deleted.
unfoldable pub freed : Held → Held
freed h = record h {
  cert_buffer = false;
  rx_buffer = false;
  rx_queue = false;
  notify_queue = false;
  session_mutex = false;
  cert_mutex = false;
  prov_events = false;
}

-- Behind the two buffers.
unfoldable pub start_rest : Room → Held → Held × Bool
unfolding freed
start_rest a h =
    let m = made a h in
    if not m.rx_queue
      || (not m.notify_queue || (not m.session_mutex || (not m.cert_mutex || not m.prov_events)))
    then (freed m, false)
    else if not a.nimble
    then (freed m, false)
    else (record m { ble_active = true; tasks = true }, true)

unfoldable pub ykp_ble_provision_start : Room → Held → Held × Bool
unfolding start_rest
ykp_ble_provision_start a h =
    let cert = h.cert_buffer || a.cert_room in
    let rx = h.rx_buffer || a.rx_room in
    if h.ble_active
    then (h, true)
    else if not cert
    then (h, false)
    else if not rx
    then (record h { cert_buffer = false }, false)
    else start_rest a (record h { cert_buffer = true; rx_buffer = true })

-- `stopped` is whether `nimble_port_stop` answers 0.
unfoldable pub ykp_ble_provision_stop : Bool → Held → Held × Bool
unfolding freed
ykp_ble_provision_stop stopped h =
    if not h.ble_active
    then (h, true)
    else if stopped
    then (record (freed h) { ble_active = false; tasks = false }, true)
    else (h, false)

abbrev pub has_room : Room → Bool
has_room a =
    a.cert_room
    && (a.rx_room
        && (a.rx_queue_room
            && (a.notify_queue_room
                && (a.session_mutex_room && (a.cert_mutex_room && (a.events_room && a.nimble))))))

-- From nothing or everything: a start that is not one too many answers true and holds everything if
-- all can be made, and else answers false and holds nothing.
pub start-all_held :
    (a : Room) (b : Bool)
    → ykp_ble_provision_start a (all_held b) ≡ (all_held (b || has_room a), b || has_room a)
unfolding ykp_ble_provision_start
start-all_held a true = refl
start-all_held a false = ground arith

-- A stop frees everything, or nothing where NimBLE does not stop.
pub stop-all_held :
    (stopped b : Bool)
    → ykp_ble_provision_stop stopped (all_held b) ≡ (all_held (b && not stopped), not b || stopped)
unfolding ykp_ble_provision_stop
stop-all_held stopped false = refl
stop-all_held false true = refl
stop-all_held true true = refl

-- `mbedtls_hmac_sha256`, with a key of up to 64 bytes.
unfoldable pub hmac_sha256 : (List ℕ → List ℕ) → List ℕ → List ℕ → Option (List ℕ)
hmac_sha256 sha key msg =
    let k = key ++ replicate (64 - length key) 0 in
    let ipad = map (λ (x : ℕ). bit_xor x 0x36) k in
    let opad = map (λ (x : ℕ). bit_xor x 0x5C) k in
    if ltb 64 (length key) then none else some (sha (opad ++ sha (ipad ++ msg)))

-- `%lu` of a number below 10 ^ k.
unfoldable pub decimal : ℕ → ℕ → List ℕ
decimal zero n = []
decimal (suc k) n =
    let higher = decimal k (n / 10) in
    if ltb n 10 then (b'0' + n) ∷ [] else higher ++ (b'0' + n % 10) ∷ []

abbrev hmac_or_empty : Option (List ℕ) → List ℕ
hmac_or_empty none = []
hmac_or_empty (some hash) = hash

-- The salt is the session's id in digits.
unfoldable pub derive_hmac_key : (List ℕ → List ℕ) → ℕ → List ℕ
unfolding hmac_sha256 decimal codes
derive_hmac_key sha session_id =
    let prk = hmac_or_empty (hmac_sha256 sha (decimal 10 session_id) (replicate 32 1)) in
    hmac_or_empty (hmac_sha256 sha prk (codes "YKP_HMAC_KEY" ++ 1 ∷ []))

-- The session of a start, with a random id.
unfoldable pub begin_session : (Session → ℕ) → (List ℕ → List ℕ) → ℕ → Prov → Prov
unfolding prov_session_clear update_crc derive_hmac_key
begin_session session_crc sha random p =
    let cleared = prov_session_clear session_crc p in
    record cleared {
      session =
          update_crc session_crc
            (record cleared.session { session_id = random; hmac_key = derive_hmac_key sha random });
    }
