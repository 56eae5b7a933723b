-- ===== src/Session/Ids.antt =====
-- The packet ids of a session, and what the replay window makes of them.
use mathlib.Core.Path.{ap₂}
use iot_yk.Base.{ℕ, zero, suc, ◌+◌, ◌≤◌, ◌<◌, ◌^◌, ◌≡◌, refl, ap, ◌∙◌, List, [], ◌∷◌, length, arith}
use iot_yk.Replay.{ReplayCtx, init as replay_init, passed}
use iot_yk.Replay.History.{highest, contains_above, spec_passed}
use iot_yk.Replay.Refine.{passed_refines}
use iot_yk.Session.{Session, next_packet_id, set_active}

-- The ids of packets sent at these clock readings.
unfoldable pub packet_ids : Session → List ℕ → List ℕ × Session
packet_ids s [] = ([], s)
packet_ids s (time_us ∷ times) =
    let (id, s') = next_packet_id time_us s in
    let (ids, end) = packet_ids s' times in (id ∷ ids, end)

-- `count` numbers from `first` on.
unfoldable pub range : ℕ → ℕ → List ℕ
range first zero = []
range first (suc count) = first ∷ range (suc first) count

next_packet_id-range :
    (s : Session) (times : List ℕ)
    → s.packet_counter + length times < 2 ^ 32
    → (packet_ids s times).0 ≡ range (suc s.packet_counter) (length times)
unfolding packet_ids next_packet_id range
next_packet_id-range s [] h = refl
next_packet_id-range s (t ∷ times) h =
    let (id, s') = next_packet_id t s in
    let here : s'.packet_counter ≡ suc s.packet_counter = omega arith in
    ap₂ ◌∷◌ here (
      next_packet_id-range s' times (omega (arith, here))
      ∙ ap (λ c. range (suc c) (length times)) here)

pub packet_ids-range :
    (s : Session) (time_us session_id : ℕ) (times : List ℕ)
    → length times + 1 < 2 ^ 32
    → (packet_ids (set_active time_us session_id s) times).0 ≡ range 2 (length times)
unfolding set_active
packet_ids-range s time_us session_id times h =
    next_packet_id-range (set_active time_us session_id s) times (omega arith)

-- A rising range above all that was accepted gets through as a whole.
spec_passed-range :
    (hist : List ℕ) (first count : ℕ)
    → highest hist < first
    → first ≤ highest hist + 64
    → spec_passed hist (range first count) ≡ range first count
unfolding spec_passed range highest
spec_passed-range hist first zero h k = refl
spec_passed-range hist first (suc count) h k =
    let rest = spec_passed-range (first ∷ hist) (suc first) count (ground arith) (ground arith) in
    ground (arith, contains_above hist first, rest)

-- The ids that a session hands out after its activation, fewer than 2 ^ 32 - 1 of them, are
-- 2, 3, 4 and so on, and a replay window that was reset lets all of them through in that order.
pub packet_ids-passed :
    (s : Session) (ctx : ReplayCtx) (time_us session_id : ℕ) (times : List ℕ)
    → length times + 1 < 2 ^ 32
    → let ids = (packet_ids (set_active time_us session_id s) times).0 in
      (ids ≡ range 2 (length times)) × (passed (replay_init ctx) ids ≡ ids)
unfolding highest
packet_ids-passed s ctx time_us session_id times h =
    let ids = packet_ids-range s time_us session_id times h in
    let through = spec_passed-range [] 2 (length times) (omega arith) (omega arith) in
    (ids, rw ids (passed_refines ctx (range 2 (length times)) ∙ through))
