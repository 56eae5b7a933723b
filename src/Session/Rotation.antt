-- ===== src/Session/Rotation.antt =====
-- When `ykp_session_rotation_due` of ykp_session.c asks for new keys.
use iot_yk.Base.{
  ℕ, suc, ◌+◌, ◌*◌, ◌<◌, ◌^◌, ◌≡◌, ap, ◌∙◌, Bool, true, false, ◌&&◌, ◌||◌, List, [], ◌∷◌, length,
  ltb, leb, if◌then◌else◌, arith,
}
use iot_yk.Session.{Session, is_late, next_packet_id, rotation_due}
use iot_yk.Session.Ids.{packet_ids}

-- The session has a start, and this reading of the clock, in microseconds, is half an hour or more
-- after it.
unfoldable pub half_hour_on : ℕ → ℕ → Bool
half_hour_on start_ms time_us = ltb 0 start_ms && leb (1000 * start_ms + 1800000000) time_us

is_late_lem : (start_ms time_us : ℕ) → is_late start_ms time_us ≡ half_hour_on start_ms time_us
unfolding is_late half_hour_on
is_late_lem start_ms time_us = ground arith

-- One of the clock readings is half an hour on.
unfoldable pub any_late : ℕ → List ℕ → Bool
any_late start_ms [] = false
any_late start_ms (time_us ∷ times) = half_hour_on start_ms time_us || any_late start_ms times

-- Packets are sent, and the counter is at the limit after the last.
unfoldable pub count_reached : ℕ → ℕ → ℕ → Bool
count_reached limit counter sent = ltb 0 sent && leb limit (counter + sent)

count_reached-suc :
    (limit counter sent : ℕ)
    → (leb limit (suc counter) || count_reached limit (suc counter) sent)
      ≡ count_reached limit counter (suc sent)
unfolding count_reached
count_reached-suc limit counter sent = ground arith

or_shuffle :
    (late full needs later fuller : Bool)
    → ((if full then true else if late then true else needs) || later || fuller)
      ≡ (needs || (late || later) || (full || fuller))
or_shuffle true true needs later fuller = ground arith
or_shuffle true false needs later fuller = ground arith
or_shuffle false true needs later fuller = ground arith
or_shuffle false false needs later fuller = ground arith

-- A session asks for new keys after a run of packets if it did before, if it has a start (a nonzero
-- `session_start_ms`) and a packet of the run was sent 1,800,000,000 microseconds after it or later,
-- or if there is a packet and the counter has come to `key_rotate_at`; and for no other reason. The
-- counter does not wrap around.
pub rotation_due-packet_ids :
    (s : Session) (times : List ℕ)
    → s.packet_counter + length times < 2 ^ 32
    → rotation_due (packet_ids s times).1 ≡ (
        rotation_due s
        || any_late s.session_start_ms times
        || count_reached s.key_rotate_at s.packet_counter (length times))
unfolding rotation_due packet_ids next_packet_id any_late count_reached
rotation_due-packet_ids s [] h = ground arith
rotation_due-packet_ids s (t ∷ times) h =
    let (id, s') = next_packet_id t s in
    let here : s'.packet_counter ≡ suc s.packet_counter = omega arith in
    let rest = rotation_due-packet_ids s' times (omega (arith, here)) in
    rest
    ∙ rw (here, is_late_lem s.session_start_ms t)
        (or_shuffle (half_hour_on s.session_start_ms t) (leb s.key_rotate_at (suc s.packet_counter))
            s.needs_key_rotate (any_late s.session_start_ms times)
            (count_reached s.key_rotate_at (suc s.packet_counter) (length times))
          ∙ ap
              (λ x.
                s.needs_key_rotate
                || (half_hour_on s.session_start_ms t || any_late s.session_start_ms times)
                || x)
              (count_reached-suc s.key_rotate_at s.packet_counter (length times)))
