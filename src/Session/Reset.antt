-- ===== src/Session/Reset.antt =====
-- `ykp_session_reset` of ykp_session.c after any use of a session.
use iot_yk.Base.{
  ℕ, ◌≡◌, refl, some, none, List, [], ◌∷◌, ◌++◌, length, length-append, length-take, length-drop,
  take, drop, arith, Bool, false, Option, sym, replicate, ltb, leb-true, if◌then◌else◌, ◌≤◌, ◌∙◌,
}
use Prim.Native.Nat.{min}
use iot_yk.Base.Bytes.{overwrite-append, Run, done, ◌>>=◌}
use iot_yk.Session.{
  Session, SessionState, idle, next_packet_id, set_active, store_nonce, reset, nonce_len,
}

-- What the firmware does to a session: the calls, with the clock's readings and the pointer's
-- memory, and main.c's own writes to `state`.
pub data Op : Type 0 where
  take_id : ℕ → Op
  activate : ℕ → ℕ → Op
  nonce : List ℕ → ℕ → Op
  enter : SessionState → Op
  clear : Op

unfoldable pub apply : Op → Session → Run Session
apply (take_id time_us) s = done (next_packet_id time_us s).1
apply (activate time_us session_id) s = done (set_active time_us session_id s)
apply (nonce bytes len) s = store_nonce bytes len s
apply (enter state) s = done (record s { state = state })
apply clear s = done (reset s)

unfoldable pub use_session : List Op → Session → Run Session
use_session [] s = done s
use_session (op ∷ ops) s = apply op s >>= use_session ops

-- The nonce of a call is as long as the call reads it.
abbrev pub IsOp : Op → Type 0
IsOp (nonce bytes len) = min len nonce_len ≤ length bytes
IsOp _ = Unit {0}

abbrev pub AreOps : List Op → Type 0
AreOps [] = Unit {0}
AreOps (op ∷ ops) = IsOp op × AreOps ops

-- The security context of a session, with its keys inactive where it has one.
abbrev pub inactive : Option Bool → Option Bool
inactive none = none
inactive (some _) = some false

-- The session without what a reset clears, by the values of each field.
abbrev pub cleared : Session → Session
cleared s = record {
  state = idle;
  session_id = 0;
  packet_counter = 1;
  rx_counter = s.rx_counter;
  key_rotate_at = s.key_rotate_at;
  session_start_ms = 0;
  server_nonce = replicate 16 0;
  needs_key_rotate = false;
  sec_ctx = inactive s.sec_ctx;
}

-- A run that ends, and leaves nothing that a reset does not clear.
pub record Forgets (s : Session) (r : Run Session) : Type 0 where
  pub end : Session
  pub ends : r ≡ done end
  pub nonce_fits : length end.server_nonce ≡ nonce_len
  pub forgets : reset end ≡ cleared s

reset-cleared : (s : Session) → reset s ≡ cleared s
unfolding reset
reset-cleared s =
    elim s.sec_ctx as (λ c. reset (record s { sec_ctx = c }) ≡ cleared (record s { sec_ctx = c })) [
      | none ↦ refl
      | some flag ↦ refl
    ]

reset_twice : (s : Session) → reset (reset s) ≡ reset s
unfolding reset
reset_twice s =
    elim s.sec_ctx
      as (λ c. reset (reset (record s { sec_ctx = c })) ≡ reset (record s { sec_ctx = c })) [
        | none ↦ refl
        | some flag ↦ refl
      ]

store_nonce-Forgets :
    (s : Session) (bytes : List ℕ) (len : ℕ)
    → length s.server_nonce ≡ nonce_len
    → min len nonce_len ≤ length bytes
    → Forgets s (store_nonce bytes len s)
unfolding store_nonce reset
store_nonce-Forgets s bytes len fits h =
    let n = if ltb len nonce_len then len else nonce_len in
    let short : n ≤ length bytes = ground arith in
    let taken : length (take n bytes) ≡ n = omega (arith, length-take n bytes) in
    let below : n ≤ nonce_len = ground arith in
    rw (leb-true n (length bytes) short) (
      rw (overwrite-append (take n bytes) s.server_nonce (ground (arith, taken))) (record {
        end = record s {
          server_nonce = take n bytes ++ drop (length (take n bytes)) s.server_nonce;
        };
        ends = refl;
        nonce_fits =
            length-append (take n bytes) (drop (length (take n bytes)) s.server_nonce)
            ∙ omega (arith, taken, length-drop (length (take n bytes)) s.server_nonce, below);
        forgets = reset-cleared s;
      }))

apply-Forgets :
    (op : Op) (s : Session) → IsOp op → length s.server_nonce ≡ nonce_len → Forgets s (apply op s)
unfolding apply reset set_active next_packet_id
apply-Forgets (take_id time_us) s v fits = record {
  end = _;
  ends = refl;
  nonce_fits = fits;
  forgets = reset-cleared s;
}
apply-Forgets (activate time_us session_id) s v fits = record {
  end = _;
  ends = refl;
  nonce_fits = fits;
  forgets = reset-cleared s;
}
apply-Forgets (nonce bytes len) s v fits = store_nonce-Forgets s bytes len fits v
apply-Forgets (enter state) s v fits = record {
  end = _;
  ends = refl;
  nonce_fits = fits;
  forgets = reset-cleared s;
}
apply-Forgets clear s v fits = record {
  end = _;
  ends = refl;
  nonce_fits = refl;
  forgets = reset_twice s ∙ reset-cleared s;
}

-- Any sequence of calls on a session, and of writes of its state, where every nonce is as long as
-- its call reads it, ends without a fault, and a reset after it leaves the idle state, id 0, packet
-- counter 1, start 0, a zero nonce, no request for keys and, where the session has a security
-- context, its keys inactive; `rx_counter` and `key_rotate_at` are those of before the calls.
pub use_session-Forgets :
    (ops : List Op) (s : Session)
    → AreOps ops
    → length s.server_nonce ≡ nonce_len
    → Forgets s (use_session ops s)
unfolding use_session
use_session-Forgets [] s v fits = record {
  end = s;
  ends = refl;
  nonce_fits = fits;
  forgets = reset-cleared s;
}
use_session-Forgets (op ∷ ops) s v fits =
    let a = apply-Forgets op s v.0 fits in
    let b = use_session-Forgets ops a.end v.1 a.nonce_fits in
    rw a.ends (record {
      end = b.end;
      ends = b.ends;
      nonce_fits = b.nonce_fits;
      forgets = b.forgets ∙ sym (reset-cleared a.end) ∙ a.forgets;
    })
