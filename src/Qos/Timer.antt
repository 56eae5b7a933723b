-- ===== src/Qos/Timer.antt =====
-- The software timer of ykp_qos.c, followed through the calls of the engine. FreeRTOS documents
-- `xTimerStart` and `xTimerStop` so: the timer runs after the one and not after the other.
use mathlib.Core.List.{map, append_assoc, append-nil}
use iot_yk.Base.{
  ℕ, ◌/◌, ◌≡◌, refl, ap, ◌∙◌, sym, Bool, true, false, ◌||◌, ◌⊎◌, inl, inr, Option, none, some, List,
  [], ◌∷◌, ◌++◌, arith, if◌then◌else◌, Bool-cases, Option-cases,
}
use iot_yk.Qos.{
  Pending, Engine, Qos, qos0, qos1, qos2, Call, send, timer_start, timer_stop, any_active,
  check_and_stop_timer, calls_if, fill, fill_first, keep, enqueue, ack_first, ack, pubrec_slot,
  pubrec, is_completed, pubcomp_loop, pubcomp, Turn, quiet, give_up, resend, turn_of, after_turn,
  turn_calls, tick_loop, tick,
}

-- Whether the timer runs after the calls.
unfoldable pub runs : Bool → List Call → Bool
runs on [] = on
runs on (send bytes ∷ calls) = runs on calls
runs on (timer_start ∷ calls) = runs true calls
runs on (timer_stop ∷ calls) = runs false calls

runs-append : (on : Bool) (xs ys : List Call) → runs on (xs ++ ys) ≡ runs (runs on xs) ys
unfolding runs
runs-append on [] ys = refl
runs-append on (send bytes ∷ xs) ys = runs-append on xs ys
runs-append on (timer_start ∷ xs) ys = runs-append true xs ys
runs-append on (timer_stop ∷ xs) ys = runs-append false xs ys

any_active-append :
    (ps qs : List Pending) → any_active (ps ++ qs) ≡ (any_active ps || any_active qs)
unfolding any_active
any_active-append [] qs = refl
any_active-append (p ∷ ps) qs = rw (any_active-append ps qs) (ground arith)

-- The check stops the timer exactly when no slot is active.
check_runs :
    (before after : List Pending)
    → (any_active after ≡ true → any_active before ≡ true)
    → runs (any_active before) (check_and_stop_timer true after) ≡ any_active after
unfolding runs check_and_stop_timer
check_runs before after h = elim (Bool-cases (any_active after)) [
  | inl a ↦ rw (a, h a) refl
  | inr a ↦ rw a refl
]

-- A slot in the middle that is let go.
release :
    (seen ps : List Pending) (p : Pending)
    → any_active (seen ++ record p { active = false } ∷ ps) ≡ true
    → any_active (seen ++ p ∷ ps) ≡ true
unfolding any_active
release seen ps p h = ground (
  arith,
  any_active-append seen (p ∷ ps),
  any_active-append seen (record p { active = false } ∷ ps),
)

turn_runs :
    (send_fn : Bool) (now_ms : ℕ) (seen ps : List Pending) (turn : Turn) (p : Pending)
    → let after = seen ++ after_turn now_ms turn p ∷ ps in
      runs (any_active (seen ++ p ∷ ps)) (turn_calls send_fn true after turn p) ≡ any_active after
unfolding turn_calls after_turn runs any_active
turn_runs send_fn now_ms seen ps quiet p = refl
turn_runs send_fn now_ms seen ps give_up p =
    check_runs (seen ++ p ∷ ps) (seen ++ record p { active = false } ∷ ps) (release seen ps p)
turn_runs true now_ms seen ps resend p =
    any_active-append seen (p ∷ ps) ∙ sym (any_active-append seen (after_turn now_ms resend p ∷ ps))
turn_runs false now_ms seen ps resend p =
    any_active-append seen (p ∷ ps) ∙ sym (any_active-append seen (after_turn now_ms resend p ∷ ps))

tick_runs :
    (send_fn : Bool) (now_ms : ℕ) (seen ps : List Pending)
    → let r = tick_loop send_fn true now_ms seen ps in
      runs (any_active (seen ++ ps)) r.0 ≡ any_active r.1
unfolding tick_loop runs
tick_runs send_fn now_ms seen [] = ap any_active (append-nil seen)
tick_runs send_fn now_ms seen (p ∷ ps) =
    let turn = turn_of now_ms p in
    let p' = after_turn now_ms turn p in
    runs-append (any_active (seen ++ p ∷ ps)) (turn_calls send_fn true (seen ++ p' ∷ ps) turn p)
      (tick_loop send_fn true now_ms (seen ++ p' ∷ []) ps).0
    ∙ rw (turn_runs send_fn now_ms seen ps turn p)
        (rw (← append_assoc seen (p' ∷ []) ps) (tick_runs send_fn now_ms (seen ++ p' ∷ []) ps))

completed_runs :
    (seen ps : List Pending) (p : Pending) (complete : Bool)
    → let after = seen ++ (if complete then record p { active = false } else p) ∷ ps in
      runs (any_active (seen ++ p ∷ ps)) (if complete then check_and_stop_timer true after else [])
      ≡ any_active after
unfolding runs
completed_runs seen ps p true =
    check_runs (seen ++ p ∷ ps) (seen ++ record p { active = false } ∷ ps) (release seen ps p)
completed_runs seen ps p false = refl

pubcomp_runs :
    (packet_id : ℕ) (seen ps : List Pending)
    → let r = pubcomp_loop true packet_id seen ps in
      runs (any_active (seen ++ ps)) r.0 ≡ any_active r.1
unfolding pubcomp_loop runs
pubcomp_runs packet_id seen [] = ap any_active (append-nil seen)
pubcomp_runs packet_id seen (p ∷ ps) =
    let complete = is_completed packet_id p in
    let p' = if complete then record p { active = false } else p in
    runs-append (any_active (seen ++ p ∷ ps))
      (if complete then check_and_stop_timer true (seen ++ p' ∷ ps) else [])
      (pubcomp_loop true packet_id (seen ++ p' ∷ []) ps).0
    ∙ rw (completed_runs seen ps p complete)
        (rw (← append_assoc seen (p' ∷ []) ps) (pubcomp_runs packet_id (seen ++ p' ∷ []) ps))

pubrec_active :
    (packet_id : ℕ) (ps : List Pending)
    → any_active (map (pubrec_slot packet_id) ps) ≡ any_active ps
unfolding any_active pubrec_slot
pubrec_active packet_id [] = refl
pubrec_active packet_id (p ∷ ps) = ground (arith, pubrec_active packet_id ps)

ack_first_idle :
    (packet_id : ℕ) (ps : List Pending) → any_active ps ≡ false → ack_first packet_id ps ≡ none
unfolding ack_first any_active
ack_first_idle packet_id [] h = refl
ack_first_idle packet_id (p ∷ ps) h =
    let idle : p.active ≡ false = ground arith in
    let rest : any_active ps ≡ false = ground arith in
    rw idle (rw (ack_first_idle packet_id ps rest) refl)

fill_first_active :
    (f : Pending → Pending) (ps : List Pending)
    → ((p : Pending) → (f p).active ≡ true)
    → (fill_first f ps ≡ none)
      ⊎ ((ps' : List Pending) × ((fill_first f ps ≡ some ps') × (any_active ps' ≡ true)))
unfolding fill_first any_active
fill_first_active f [] h = inl refl
fill_first_active f (p ∷ ps) h = elim (Bool-cases p.active) [
  | inl a ↦ elim (Option-cases (fill_first f ps)) [
    | inl none_free ↦ inl (ground arith)
    | inr (ps', free) ↦ inr (p ∷ ps', (ground arith, rw a refl))
  ]
  | inr a ↦ inr (f p ∷ ps, (ground arith, rw (h p) refl))
]

-- The operations of an engine, with their arguments and the clock's readings.
pub data Op : Type 0 where
  put : ℕ → Option (List ℕ) → Qos → ℕ → ℕ → Op
  got_ack : ℕ → ℕ → Op
  got_pubrec got_pubcomp : ℕ → Op
  timer_fires : ℕ → Op

unfoldable pub apply : Op → Engine → List Call × Engine
apply (put packet_id bytes qos retry_us sent_us) engine =
    let (ok, calls, engine') = enqueue engine packet_id bytes qos retry_us sent_us in
    (calls, engine')
apply (got_ack packet_id now_us) engine = ack engine packet_id now_us
apply (got_pubrec packet_id) engine = ([], pubrec engine packet_id)
apply (got_pubcomp packet_id) engine = pubcomp engine packet_id
apply (timer_fires now_us) engine = tick engine now_us

unfoldable pub use_engine : List Op → Engine → List Call × Engine
use_engine [] engine = ([], engine)
use_engine (op ∷ ops) engine =
    let (calls, engine') = apply op engine in
    let (later, end) = use_engine ops engine' in (calls ++ later, end)

-- The timer is there, and runs if it has to.
abbrev pub InStep : Engine → List Call × Engine → Type 0
InStep engine r =
    (runs (any_active engine.slots) r.0 ≡ any_active r.1.slots) × (r.1.timer ≡ engine.timer)

calls_runs :
    (on send_fn : Bool) (bytes : List ℕ)
    → (runs on (calls_if send_fn (send bytes)) ≡ on)
      × (runs on (calls_if send_fn (send bytes) ++ timer_start ∷ []) ≡ true)
unfolding runs
calls_runs on true bytes = (refl, refl)
calls_runs on false bytes = (refl, refl)

keep-InStep :
    (engine : Engine) (bytes : List ℕ) (f : Pending → Pending)
    → engine.timer ≡ true
    → ((p : Pending) → (f p).active ≡ true)
    → InStep engine ((keep engine bytes f).1, (keep engine bytes f).2)
unfolding keep runs
keep-InStep engine bytes f t h = elim (fill_first_active f engine.slots h) [
  | inl e ↦ rw (e, keep) (refl, refl)
  | inr (slots, (e, filled)) ↦
      rw (e, keep, t)
        ((calls_runs (any_active engine.slots) engine.send_fn bytes).1 ∙ sym filled, refl)
]

put-InStep :
    (engine : Engine) (packet_id b : ℕ) (bs : List ℕ) (qos : Qos) (retry_us sent_us : ℕ)
    → engine.timer ≡ true
    → InStep engine (apply (put packet_id (some (b ∷ bs)) qos retry_us sent_us) engine)
unfolding apply enqueue fill
put-InStep engine packet_id b bs qos0 retry_us sent_us t =
    ((calls_runs (any_active engine.slots) engine.send_fn (b ∷ bs)).0, refl)
put-InStep engine packet_id b bs qos1 retry_us sent_us t =
    keep-InStep engine (b ∷ bs) (fill packet_id (b ∷ bs) qos1 retry_us sent_us) t (λ p. refl)
put-InStep engine packet_id b bs qos2 retry_us sent_us t =
    keep-InStep engine (b ∷ bs) (fill packet_id (b ∷ bs) qos2 retry_us sent_us) t (λ p. refl)

apply-InStep : (op : Op) (engine : Engine) → engine.timer ≡ true → InStep engine (apply op engine)
unfolding apply enqueue ack pubrec pubcomp tick runs
apply-InStep (put packet_id none qos retry_us sent_us) engine t = (refl, refl)
apply-InStep (put packet_id (some []) qos retry_us sent_us) engine t = (refl, refl)
apply-InStep (put packet_id (some (b ∷ bs)) qos retry_us sent_us) engine t =
    put-InStep engine packet_id b bs qos retry_us sent_us t
apply-InStep (got_ack packet_id now_us) engine t =
    elim (Option-cases (ack_first packet_id engine.slots)) [
      | inl e ↦ rw (e, ack) (refl, refl)
      | inr ((sent_ms, ps'), e) ↦
          rw (e, ack, t)
            (
              check_runs engine.slots ps' (λ h. elim (Bool-cases (any_active engine.slots)) [
                | inl a ↦ a
                | inr a ↦ let e' = ack_first_idle packet_id engine.slots a in ground arith
              ]),
              refl,
            )
    ]
apply-InStep (got_pubrec packet_id) engine t = (sym (pubrec_active packet_id engine.slots), refl)
apply-InStep (got_pubcomp packet_id) engine t = rw t (pubcomp_runs packet_id [] engine.slots, refl)
apply-InStep (timer_fires now_us) engine t =
    rw t (tick_runs engine.send_fn (now_us / 1000) [] engine.slots, refl)

-- For an engine with a timer that runs exactly if a packet is waiting, so it is after any sequence
-- of operations: packets put in, acknowledgements, PUBREC, PUBCOMP and ticks of the clock.
pub use_engine-InStep :
    (ops : List Op) (engine : Engine)
    → engine.timer ≡ true
    → runs (any_active engine.slots) (use_engine ops engine).0
      ≡ any_active (use_engine ops engine).1.slots
unfolding use_engine runs
use_engine-InStep [] engine t = refl
use_engine-InStep (op ∷ ops) engine t =
    let a = apply-InStep op engine t in
    runs-append (any_active engine.slots) (apply op engine).0 (use_engine ops (apply op engine).1).0
    ∙ rw a.0 (use_engine-InStep ops (apply op engine).1 (a.1 ∙ t))
