-- ===== src/Replay.antt =====
-- esp32-firmware/main/ykp_core/ykp_replay.c and ykp_replay.h: the sliding window of 64 packet ids.
-- A context is passed in and handed back; log lines are left out.
pub mod History
pub mod Window
pub mod Refine
mod Examples
use iot_yk.Base.{
  ℕ, ◌-◌, ◌*◌, ◌%◌, ◌^◌, bit_and, bit_or, Bool, true, false, not, ◌&&◌, List, [], ◌∷◌, ltb, leb,
  ◌==◌, if◌then◌else◌,
}

abbrev pub window_size : ℕ
window_size = 64

pub record ReplayCtx : Type 0 where
  pub highest_id : ℕ
  pub window_bits : ℕ
  pub initialised : Bool

unfoldable pub init : ReplayCtx → ReplayCtx
init ctx = record { highest_id = 0; window_bits = 0; initialised = true }

unfoldable pub reset : ReplayCtx → ReplayCtx
unfolding init
reset ctx = init ctx

-- `window_bits <<= shift; window_bits |= 1`, or the window emptied by a jump past it.
unfoldable pub advance : ReplayCtx → ℕ → ReplayCtx
advance ctx pkt_id =
    let shift = pkt_id - ctx.highest_id in
    record ctx {
      highest_id = pkt_id;
      window_bits =
          if leb window_size shift then 1 else bit_or (ctx.window_bits * 2 ^ shift % 2 ^ 64) 1;
    }

-- An id at or below the highest: too old, seen before, or marked now.
unfoldable pub check_old : ReplayCtx → ℕ → Bool × ReplayCtx
check_old ctx pkt_id =
    let diff = ctx.highest_id - pkt_id in
    let mask = 2 ^ diff in
    if leb window_size diff
    then (false, ctx)
    else if not (bit_and ctx.window_bits mask == 0)
    then (false, ctx)
    else (true, record ctx { window_bits = bit_or ctx.window_bits mask })

unfoldable pub check_started : ReplayCtx → ℕ → Bool × ReplayCtx
unfolding advance check_old
check_started ctx pkt_id =
    if pkt_id == 0
    then (false, ctx)
    else if ctx.highest_id == 0 && ctx.window_bits == 0
    then (true, record ctx { highest_id = pkt_id; window_bits = 1 })
    else if ltb ctx.highest_id pkt_id
    then (true, advance ctx pkt_id)
    else check_old ctx pkt_id

unfoldable pub check : ReplayCtx → ℕ → Bool × ReplayCtx
unfolding init check_started
check ctx pkt_id = check_started (if ctx.initialised then ctx else init ctx) pkt_id

-- The answers to a sequence of packets.
pub run : ReplayCtx → List ℕ → List Bool
run ctx [] = []
run ctx (id ∷ ids) = let (ok, ctx') = check ctx id in ok ∷ run ctx' ids

-- The ids that a sequence of packets gets through.
pub passed : ReplayCtx → List ℕ → List ℕ
passed ctx [] = []
passed ctx (id ∷ ids) =
    let (ok, ctx') = check ctx id in let rest = passed ctx' ids in if ok then id ∷ rest else rest
