-- ===== src/Qos/Retry.antt =====
-- The retries of ykp_qos.c: what becomes of a packet that nobody acknowledges.
use mathlib.Core.List.{append_assoc, append-nil}
use iot_yk.Base.{
  ℕ, ◌+◌, ◌/◌, ◌≤◌, ◌<◌, ◌≡◌, refl, ap, sym, Bool, true, false, some, List, [], ◌∷◌, ◌++◌, length,
  take, drop, arith, leb-true, leb-false, ltb-false,
}
use iot_yk.Base.Bytes.{take-append, take_all}
use iot_yk.Qos.{
  Pending, Engine, qos1, Call, send, timer_start, timer_stop, any_active, check_and_stop_timer,
  fill, fill_first, keep, enqueue, max_retries, give_up, resend, turn_of, after_turn, turn_calls,
  tick_loop, tick,
}

-- Slots that wait for nothing are left alone.
tick_idle :
    (now_ms : ℕ) (seen ps : List Pending)
    → any_active ps ≡ false
    → tick_loop true true now_ms seen ps ≡ ([], seen ++ ps)
unfolding tick_loop any_active turn_of after_turn turn_calls
tick_idle now_ms seen [] h = ap (λ s. ([], s)) (sym (append-nil seen))
tick_idle now_ms seen (p ∷ ps) h =
    let off : p.active ≡ false = ground arith in
    let rest : any_active ps ≡ false = ground arith in
    simp (off, tick_idle now_ms (seen ++ p ∷ []) ps rest, append_assoc) refl

-- A due slot before idle slots is sent again, or given up after the last retry.
tick_resend :
    (now_ms : ℕ) (p : Pending) (ps : List Pending)
    → p.active ≡ true
    → any_active ps ≡ false
    → p.next_retry_ms ≤ now_ms
    → p.retries < max_retries
    → tick_loop true true now_ms [] (p ∷ ps)
      ≡ (send (take p.data_len p.bytes) ∷ [], after_turn now_ms resend p ∷ ps)
unfolding tick_loop turn_of turn_calls
tick_resend now_ms p ps on idle due more =
    let turn : turn_of now_ms p ≡ resend =
      rw (on, ltb-false now_ms p.next_retry_ms due, leb-false max_retries p.retries more) refl in
    rw turn (rw (tick_idle now_ms (after_turn now_ms resend p ∷ []) ps idle) refl)

tick_give_up :
    (now_ms : ℕ) (p : Pending) (ps : List Pending)
    → p.active ≡ true
    → any_active ps ≡ false
    → p.next_retry_ms ≤ now_ms
    → max_retries ≤ p.retries
    → tick_loop true true now_ms [] (p ∷ ps) ≡ (timer_stop ∷ [], record p { active = false } ∷ ps)
unfolding tick_loop turn_of after_turn turn_calls check_and_stop_timer any_active
tick_give_up now_ms p ps on idle due more =
    let turn : turn_of now_ms p ≡ give_up =
      rw (on, ltb-false now_ms p.next_retry_ms due, leb-true max_retries p.retries more) refl in
    rw turn (rw (idle, tick_idle now_ms (record p { active = false } ∷ []) ps idle) refl)

-- The timer fires at these clock readings.
unfoldable pub ticks : Engine → List ℕ → List Call × Engine
ticks engine [] = ([], engine)
ticks engine (now_us ∷ times) =
    let (calls, engine') = tick engine now_us in
    let (later, end) = ticks engine' times in (calls ++ later, end)

-- A slot that was just filled, before idle slots: three retries, and the end.
ticks_run_out :
    (engine : Engine) (q : Pending) (ps : List Pending) (t0 t1 t2 t3 : ℕ)
    → any_active ps ≡ false
    → q.next_retry_ms ≤ t0 / 1000
    → t0 / 1000 + 1000 ≤ t1 / 1000
    → t1 / 1000 + 2000 ≤ t2 / 1000
    → t2 / 1000 + 4000 ≤ t3 / 1000
    → let slots = record q { active = true; retries = 0 } ∷ ps in
      let r =
        ticks
          (record engine { slots = slots; send_fn = true; timer = true })
          (t0 ∷ t1 ∷ t2 ∷ t3 ∷ []) in
      let again = send (take q.data_len q.bytes) in
      (r.0 ≡ again ∷ again ∷ again ∷ timer_stop ∷ []) × (any_active r.1.slots ≡ false)
unfolding any_active ticks tick after_turn
ticks_run_out engine q ps t0 t1 t2 t3 rest d0 d1 d2 d3 =
    let q0 = record q { active = true; retries = 0 } in
    let q1 = after_turn (t0 / 1000) resend q0 in
    let q2 = after_turn (t1 / 1000) resend q1 in
    let q3 = after_turn (t2 / 1000) resend q2 in
    rw (tick_resend (t0 / 1000) q0 ps refl rest d0 (omega arith)) (
      rw (tick_resend (t1 / 1000) q1 ps refl rest d1 (omega arith)) (
        rw (tick_resend (t2 / 1000) q2 ps refl rest d2 (omega arith))
          (rw (tick_give_up (t3 / 1000) q3 ps refl rest d3 (omega arith)) (refl, rest))))

-- What a filled slot sends is the packet, if it fits.
filled_bytes : (x old : List ℕ) (n : ℕ) → n ≡ length x → take n (take n x ++ drop n old) ≡ x
filled_bytes x old n e =
    rw e (rw (take_all (length x) x refl) (take-append x (drop (length x) old)))

module _ (engine : Engine) (p : Pending) (ps : List Pending) (packet_id b : ℕ) (bs : List ℕ)
    (retry_us sent_us : ℕ) where
  abbrev packet : List ℕ
  packet = b ∷ bs

  abbrev enqueued : Bool × List Call × Engine
  enqueued =
      enqueue (record engine { slots = p ∷ ps; send_fn = true; timer = true }) packet_id
        (some packet) qos1 retry_us sent_us

  first_filled :
      p.active ≡ false
      → enqueued ≡ (
        true,
        send packet ∷ timer_start ∷ [],
        record engine {
          slots = fill packet_id packet qos1 retry_us sent_us p ∷ ps;
          send_fn = true;
          timer = true;
        },
      )
  unfolding enqueue keep fill_first
  first_filled off = ground arith

  -- A packet of QoS 1 of at most 1400 bytes, put into an engine that waits for nothing and never
  -- acknowledged, is sent at once, sent again unchanged at each of three ticks that come when they
  -- are due (at once, then 1, 2 and 4 seconds after the last), and given up at the fourth: its slot
  -- is free again and the timer is stopped.
  pub enqueue-give_up :
      (t0 t1 t2 t3 : ℕ)
      → any_active (p ∷ ps) ≡ false
      → length packet ≤ 1400
      → retry_us / 1000 ≤ t0 / 1000
      → t0 / 1000 + 1000 ≤ t1 / 1000
      → t1 / 1000 + 2000 ≤ t2 / 1000
      → t2 / 1000 + 4000 ≤ t3 / 1000
      → let r = ticks enqueued.2 (t0 ∷ t1 ∷ t2 ∷ t3 ∷ []) in
        (enqueued.1 ≡ send packet ∷ timer_start ∷ [])
        × (r.0 ≡ send packet ∷ send packet ∷ send packet ∷ timer_stop ∷ [])
        × (any_active r.1.slots ≡ false)
  unfolding any_active fill
  enqueue-give_up t0 t1 t2 t3 idle fits d0 d1 d2 d3 =
      let off : p.active ≡ false = ground arith in
      let rest : any_active ps ≡ false = ground arith in
      let q = fill packet_id packet qos1 retry_us sent_us p in
      let same : take q.data_len q.bytes ≡ packet =
        filled_bytes packet p.bytes q.data_len (ground arith) in
      let r = rw same at (ticks_run_out engine q ps t0 t1 t2 t3 rest d0 d1 d2 d3) in
      rw (first_filled off) (refl, r.0, r.1)
