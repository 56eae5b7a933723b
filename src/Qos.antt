-- ===== src/Qos.antt =====
-- esp32-firmware/main/ykp_core/ykp_qos.c and ykp_qos.h: packets kept until they are acknowledged.
-- What the engine calls outside, `send_fn` and the FreeRTOS timer, is handed back as a list of
-- calls. `esp_timer_get_time` is a parameter, in microseconds. An array and its length are one list.
pub mod Timer
pub mod Ack
pub mod Retry
mod Examples
use mathlib.Core.List.{map}
use Prim.Native.Nat.{min}
use iot_yk.Base.{
  ℕ, ◌+◌, ◌-◌, ◌*◌, ◌/◌, ◌^◌, Bool, true, false, not, ◌&&◌, ◌||◌, Option, none, some, List, [], ◌∷◌,
  ◌++◌, length, replicate, take, drop, ltb, leb, ◌==◌, if◌then◌else◌,
}
use iot_yk.Base.Bytes.{u8, u32}

abbrev pub max_pending : ℕ
max_pending = 32

abbrev pub retry_delay_ms : ℕ
retry_delay_ms = 500

abbrev pub max_retries : ℕ
max_retries = 3

abbrev pub data_size : ℕ
data_size = 1400

pub data Qos : Type 0 where
  qos0 qos1 qos2 : Qos

abbrev pub is_qos1 : Qos → Bool
is_qos1 qos1 = true
is_qos1 _ = false

abbrev pub is_qos2 : Qos → Bool
is_qos2 qos2 = true
is_qos2 _ = false

pub record Pending : Type 0 where
  pub packet_id : ℕ
  pub bytes : List ℕ
  pub data_len : ℕ
  pub qos : Qos
  pub retries : ℕ
  pub next_retry_ms : ℕ
  pub sent_time_ms : ℕ
  pub waiting_pubrec : Bool
  pub waiting_pubcomp : Bool
  pub active : Bool

-- The two flags say whether the pointers are set. `last_rtt_ms` is the global of ykp_qos.c.
pub record Engine : Type 0 where
  pub slots : List Pending
  pub send_fn : Bool
  pub timer : Bool
  pub last_rtt_ms : ℕ

pub data Call : Type 0 where
  send : List ℕ → Call
  timer_start timer_stop : Call

unfoldable pub any_active : List Pending → Bool
any_active [] = false
any_active (p ∷ ps) = p.active || any_active ps

unfoldable pub check_and_stop_timer : Bool → List Pending → List Call
check_and_stop_timer timer slots = if not (any_active slots) && timer then timer_stop ∷ [] else []

abbrev pub blank : Pending
blank = record {
  packet_id = 0;
  bytes = replicate data_size 0;
  data_len = 0;
  qos = qos0;
  retries = 0;
  next_retry_ms = 0;
  sent_time_ms = 0;
  waiting_pubrec = false;
  waiting_pubcomp = false;
  active = false;
}

unfoldable pub init : Bool → Engine → Engine
init send_fn engine = record engine {
  slots = replicate max_pending blank;
  send_fn = send_fn;
  timer = false;
}

abbrev pub calls_if : Bool → Call → List Call
calls_if given call = if given then call ∷ [] else []

-- The slot taken for a packet. The clock is read twice.
unfoldable pub fill : ℕ → List ℕ → Qos → ℕ → ℕ → Pending → Pending
fill packet_id bytes qos retry_us sent_us p =
    let data_len = if ltb (length bytes) data_size then length bytes else data_size in
    record p {
      packet_id = packet_id;
      data_len = data_len;
      bytes = take data_len bytes ++ drop data_len p.bytes;
      qos = qos;
      retries = 0;
      next_retry_ms = retry_us / 1000;
      sent_time_ms = sent_us / 1000;
      waiting_pubrec = is_qos2 qos;
      waiting_pubcomp = false;
      active = true;
    }

-- The first slot that is free is filled; `none` if there is none.
unfoldable pub fill_first : (Pending → Pending) → List Pending → Option (List Pending)
fill_first f [] = none
fill_first f (p ∷ ps) =
    let rest : Option (List Pending) = elim (fill_first f ps) [
      | none ↦ none
      | some ps' ↦ some (p ∷ ps')
    ] in
    if not p.active then some (f p ∷ ps) else rest

-- A packet that waits for an answer: sent and kept, or refused where no slot is free.
unfoldable pub keep : Engine → List ℕ → (Pending → Pending) → Bool × List Call × Engine
keep engine bytes f = elim (fill_first f engine.slots) [
  | none ↦ (false, [], engine)
  | some slots ↦ (
    true,
    calls_if engine.send_fn (send bytes) ++ calls_if engine.timer timer_start,
    record engine { slots = slots },
  )
]

-- The answer, the calls and the engine. `none` is a null pointer.
unfoldable pub enqueue : Engine → ℕ → Option (List ℕ) → Qos → ℕ → ℕ → Bool × List Call × Engine
enqueue engine packet_id none qos retry_us sent_us = (false, [], engine)
enqueue engine packet_id (some []) qos retry_us sent_us = (false, [], engine)
enqueue engine packet_id (some (b ∷ bs)) qos0 retry_us sent_us =
    (true, calls_if engine.send_fn (send (b ∷ bs)), engine)
enqueue engine packet_id (some (b ∷ bs)) qos retry_us sent_us =
    keep engine (b ∷ bs) (fill packet_id (b ∷ bs) qos retry_us sent_us)

-- The slot that an acknowledgement is for.
abbrev pub is_acked : ℕ → Pending → Bool
is_acked packet_id p = p.active && p.packet_id == packet_id && is_qos1 p.qos

-- The slots after an acknowledgement, and when the packet was sent; `none` if no slot waits for it.
unfoldable pub ack_first : ℕ → List Pending → Option (ℕ × List Pending)
ack_first packet_id [] = none
ack_first packet_id (p ∷ ps) =
    let rest : Option (ℕ × List Pending) = elim (ack_first packet_id ps) [
      | none ↦ none
      | some (sent_ms, ps') ↦ some (sent_ms, p ∷ ps')
    ] in
    if is_acked packet_id p then some (p.sent_time_ms, record p { active = false } ∷ ps) else rest

unfoldable pub ack : Engine → ℕ → ℕ → List Call × Engine
ack engine packet_id now_us = elim (ack_first packet_id engine.slots) [
  | none ↦ ([], engine)
  | some (sent_ms, slots) ↦
      let now_ms = now_us / 1000 in
      let in_range = leb sent_ms now_ms && ltb (now_ms - sent_ms) 10000 in
      (
        check_and_stop_timer engine.timer slots,
        record engine {
          slots = slots;
          last_rtt_ms = if in_range then now_ms - sent_ms else engine.last_rtt_ms;
        },
      )
]

unfoldable pub pubrec_slot : ℕ → Pending → Pending
pubrec_slot packet_id p =
    if p.active && p.packet_id == packet_id && is_qos2 p.qos
    then record p { waiting_pubrec = false; waiting_pubcomp = true }
    else p

unfoldable pub pubrec : Engine → ℕ → Engine
pubrec engine packet_id = record engine { slots = map (pubrec_slot packet_id) engine.slots }

abbrev pub is_completed : ℕ → Pending → Bool
is_completed packet_id p =
    p.active && p.packet_id == packet_id && is_qos2 p.qos && p.waiting_pubcomp

-- The loop: `seen` are the slots that it has passed.
unfoldable pub pubcomp_loop : Bool → ℕ → List Pending → List Pending → List Call × List Pending
pubcomp_loop timer packet_id seen [] = ([], seen)
pubcomp_loop timer packet_id seen (p ∷ ps) =
    let complete = is_completed packet_id p in
    let p' = if complete then record p { active = false } else p in
    let (later, slots) = pubcomp_loop timer packet_id (seen ++ p' ∷ []) ps in
    ((if complete then check_and_stop_timer timer (seen ++ p' ∷ ps) else []) ++ later, slots)

unfoldable pub pubcomp : Engine → ℕ → List Call × Engine
pubcomp engine packet_id =
    let (calls, slots) = pubcomp_loop engine.timer packet_id [] engine.slots in
    (calls, record engine { slots = slots })

-- What the timer does with a slot.
pub data Turn : Type 0 where
  quiet give_up resend : Turn

unfoldable pub turn_of : ℕ → Pending → Turn
turn_of now_ms p =
    if not p.active
    then quiet
    else if ltb now_ms p.next_retry_ms
    then quiet
    else if leb max_retries p.retries
    then give_up
    else resend

unfoldable pub after_turn : ℕ → Turn → Pending → Pending
after_turn now_ms quiet p = p
after_turn now_ms give_up p = record p { active = false }
after_turn now_ms resend p =
    let retries = u8 (p.retries + 1) in
    let shift = if ltb retries 10 then retries else 10 in
    record p { retries = retries; next_retry_ms = now_ms + retry_delay_ms * 2 ^ shift }

-- The calls of a turn; `slots` are all slots, this one as the turn leaves it.
unfoldable pub turn_calls : Bool → Bool → List Pending → Turn → Pending → List Call
turn_calls send_fn timer slots quiet p = []
turn_calls send_fn timer slots give_up p = check_and_stop_timer timer slots
turn_calls send_fn timer slots resend p = calls_if send_fn (send (take p.data_len p.bytes))

unfoldable pub tick_loop : Bool → Bool → ℕ → List Pending → List Pending → List Call × List Pending
tick_loop send_fn timer now_ms seen [] = ([], seen)
tick_loop send_fn timer now_ms seen (p ∷ ps) =
    let turn = turn_of now_ms p in
    let p' = after_turn now_ms turn p in
    let (later, slots) = tick_loop send_fn timer now_ms (seen ++ p' ∷ []) ps in
    (turn_calls send_fn timer (seen ++ p' ∷ ps) turn p ++ later, slots)

unfoldable pub tick : Engine → ℕ → List Call × Engine
tick engine now_us =
    let (calls, slots) = tick_loop engine.send_fn engine.timer (now_us / 1000) [] engine.slots in
    (calls, record engine { slots = slots })
