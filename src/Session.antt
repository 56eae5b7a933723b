-- ===== src/Session.antt =====
-- esp32-firmware/main/ykp_core/ykp_session.c and ykp_session.h: the state of a session and its
-- packet counter. `esp_timer_get_time` is a parameter, the reading in microseconds; log lines are
-- left out.
pub mod Ids
pub mod Rotation
pub mod Reset
mod Examples
use iot_yk.Base.{
  ℕ, ◌+◌, ◌/◌, Bool, true, false, ◌&&◌, Option, none, some, List, replicate, ltb, leb,
  if◌then◌else◌,
}
use iot_yk.Base.Bytes.{Run, done, fault, ◌>>=◌, u32, split_at, overwrite}

abbrev pub nonce_len : ℕ
nonce_len = 16

abbrev pub key_rotate_packet_count : ℕ
key_rotate_packet_count = 1000

abbrev pub key_rotate_interval_ms : ℕ
key_rotate_interval_ms = 1800000

pub data SessionState : Type 0 where
  idle : SessionState
  hello_sent : SessionState
  ecdh_sent : SessionState
  active : SessionState
  rotating : SessionState
  closed : SessionState

-- `sec_ctx` is the context behind the pointer, of which the session writes one flag,
-- `session.active`; `none` is a null pointer.
pub record Session : Type 0 where
  pub state : SessionState
  pub session_id : ℕ
  pub packet_counter : ℕ
  pub rx_counter : ℕ
  pub key_rotate_at : ℕ
  pub session_start_ms : ℕ
  pub server_nonce : List ℕ
  pub needs_key_rotate : Bool
  pub sec_ctx : Option Bool

unfoldable pub init : Option Bool → Session
init sec_ctx = record {
  state = idle;
  session_id = 0;
  packet_counter = 1;
  rx_counter = 0;
  key_rotate_at = key_rotate_packet_count;
  session_start_ms = 0;
  server_nonce = replicate nonce_len 0;
  needs_key_rotate = false;
  sec_ctx = sec_ctx;
}

-- The half hour since the start is over.
unfoldable pub is_late : ℕ → ℕ → Bool
is_late start_ms time_us =
    ltb 0 start_ms && leb (key_rotate_interval_ms + start_ms) (time_us / 1000)

unfoldable pub next_packet_id : ℕ → Session → ℕ × Session
unfolding is_late
next_packet_id time_us s =
    let counter = u32 (s.packet_counter + 1) in
    let needs = if is_late s.session_start_ms time_us then true else s.needs_key_rotate in
    (
      counter,
      record s {
        packet_counter = counter;
        needs_key_rotate = if leb s.key_rotate_at counter then true else needs;
      },
    )

unfoldable pub set_active : ℕ → ℕ → Session → Session
set_active time_us session_id s = record s {
  session_id = session_id;
  state = active;
  session_start_ms = time_us / 1000;
  packet_counter = 1;
  needs_key_rotate = false;
}

-- `nonce` is the memory from the pointer on.
unfoldable pub store_nonce : List ℕ → ℕ → Session → Run Session
store_nonce nonce len s =
    let copy_len = if ltb len nonce_len then len else nonce_len in
    split_at copy_len nonce >>= λ (bytes, behind).
    overwrite bytes s.server_nonce >>= λ server_nonce.
    done (record s { server_nonce = server_nonce })

unfoldable pub is_active : Session → Bool
is_active s = elim s.state [ active ↦ true | _ ↦ false ]

unfoldable pub reset : Session → Session
reset s = record s {
  state = idle;
  session_id = 0;
  packet_counter = 1;
  needs_key_rotate = false;
  session_start_ms = 0;
  server_nonce = replicate nonce_len 0;
  sec_ctx = elim s.sec_ctx [ none ↦ none | some flag ↦ some false ];
}

unfoldable pub rotation_due : Session → Bool
rotation_due s = s.needs_key_rotate
