-- ===== src/Replay/Refine.antt =====
-- The window gives the answers of the whole history: step by step, and over any sequence.
use iot_yk.Base.{
  ℕ, ◌-◌, ◌^◌, ◌≤◌, ◌<◌, ◌≡◌, refl, ap, inl, inr, bit_and, bit_or, Bool, true, not, List, [], ◌∷◌,
  leb, ◌==◌, if◌then◌else◌, Bool-cases, arith,
}
use iot_yk.Base.Bits.{bit_and-pow_pos, bit_and-pow_zero}
use mathlib.Core.Path.{ap₂}
use native.Mathlib.Decide.{dec_lt, ℕ_discrete}
use iot_yk.Replay.{ReplayCtx, init, advance, check_old, check_started, check, run, passed}
use iot_yk.Replay.History.{
  highest, contains, is_fresh, contains_above, spec_run, spec_passed, Distinct,
  spec_passed-Distinct,
}
use iot_yk.Replay.Window.{Marks, Marks-one, Marks-shifted, Marks-or}

-- A context that has accepted exactly the ids of `hist`, as far as it can tell.
pub record Agrees (ctx : ReplayCtx) (hist : List ℕ) : Type 0 where
  pub started : ctx.initialised ≡ true
  pub top : ctx.highest_id ≡ highest hist
  pub empty : ctx.highest_id ≡ 0 → ctx.window_bits ≡ 0
  pub marks : Marks ctx.highest_id ctx.window_bits hist

pub init-Agrees : (ctx : ReplayCtx) → Agrees (init ctx) []
unfolding init highest
init-Agrees ctx = record {
  started = refl;
  top = refl;
  empty = λ e. refl;
  marks = λ d h k. elim k [ ];
}

-- The answer, and the context after it.
abbrev Answers : Bool × ReplayCtx → List ℕ → ℕ → Type 0
Answers r hist id =
    (r.0 ≡ is_fresh hist id) × Agrees r.1 (if is_fresh hist id then id ∷ hist else hist)

accept-Agrees :
    (ctx : ReplayCtx) (hist : List ℕ) (id bits : ℕ)
    → Agrees ctx hist
    → 0 < id
    → ctx.highest_id ≤ id
    → Marks id bits (id ∷ hist)
    → Agrees (record ctx { highest_id = id; window_bits = bits }) (id ∷ hist)
unfolding highest
accept-Agrees ctx hist id bits a p h m = record {
  started = a.started;
  top = omega (arith, a.top);
  empty = λ e. absurd (omega arith);
  marks = m;
}

mark-Agrees :
    (ctx : ReplayCtx) (hist : List ℕ) (id : ℕ)
    → Agrees ctx hist
    → 0 < id
    → id ≤ ctx.highest_id
    → Agrees
        (record ctx { window_bits = bit_or ctx.window_bits (2 ^ (ctx.highest_id - id)) })
        (id ∷ hist)
unfolding highest
mark-Agrees ctx hist id a p h = record {
  started = a.started;
  top = omega (arith, a.top);
  empty = λ e. absurd (omega arith);
  marks = Marks-or id ctx.window_bits ctx.highest_id hist h p a.marks;
}

-- Inside the window the mask test reads whether the id is in the history.
mask_reads :
    (ctx : ReplayCtx) (hist : List ℕ) (id : ℕ)
    → Agrees ctx hist
    → 0 < id
    → id ≤ ctx.highest_id
    → ctx.highest_id - id < 64
    → not (bit_and ctx.window_bits (2 ^ (ctx.highest_id - id)) == 0) ≡ contains hist id
mask_reads ctx hist id a p h near =
    let back : ctx.highest_id - (ctx.highest_id - id) ≡ id = omega arith in
    let mark = a.marks (ctx.highest_id - id) near (omega arith) in
    ground (
      arith,
      mark,
      ap (contains hist) back,
      bit_and-pow_pos ctx.window_bits (ctx.highest_id - id),
      bit_and-pow_zero ctx.window_bits (ctx.highest_id - id),
    )

check_old-Answers :
    (ctx : ReplayCtx) (hist : List ℕ) (id : ℕ)
    → Agrees ctx hist
    → 0 < id
    → id ≤ ctx.highest_id
    → Answers (check_old ctx id) hist id
unfolding check_old
check_old-Answers ctx hist id a p h =
    ground (arith, a.top, a, mask_reads ctx hist id a p h, mark-Agrees ctx hist id a p h)

advance-Marks :
    (ctx : ReplayCtx) (hist : List ℕ) (id : ℕ)
    → Agrees ctx hist
    → 0 < ctx.highest_id
    → ctx.highest_id < id
    → Marks id (advance ctx id).window_bits (id ∷ hist)
unfolding advance
advance-Marks ctx hist id a p h = elim (Bool-cases (leb 64 (id - ctx.highest_id))) [
  | inl far ↦ rw far (Marks-one id hist (inr (ground (arith, a.top))))
  | inr near ↦
      rw (near, a.top)
        (Marks-shifted id ctx.window_bits hist (omega (arith, a.top)) (omega (arith, a.top))
          (rw a.top at a.marks))
]

check_new-Answers :
    (ctx : ReplayCtx) (hist : List ℕ) (id : ℕ)
    → Agrees ctx hist
    → 0 < ctx.highest_id
    → ctx.highest_id < id
    → Answers (true, advance ctx id) hist id
unfolding advance
check_new-Answers ctx hist id a p h = ground (
  arith,
  a.top,
  contains_above hist id,
  accept-Agrees ctx hist id (advance ctx id).window_bits a (omega arith) (omega arith)
      (advance-Marks ctx hist id a p h),
)

check_first-Answers :
    (ctx : ReplayCtx) (hist : List ℕ) (id : ℕ)
    → Agrees ctx hist
    → 0 < id
    → ctx.highest_id ≡ 0
    → Answers (true, record ctx { highest_id = id; window_bits = 1 }) hist id
check_first-Answers ctx hist id a p e = ground (
  arith,
  a.top,
  contains_above hist id,
  accept-Agrees ctx hist id 1 a p (omega arith) (Marks-one id hist (inl (omega (arith, a.top)))),
)

pub check-Answers :
    (ctx : ReplayCtx) (hist : List ℕ) (id : ℕ) → Agrees ctx hist → Answers (check ctx id) hist id
unfolding check check_started
check-Answers ctx hist id a = elim (ℕ_discrete id 0) [
  | yes e ↦ ground (arith, a.started, a, e)
  | no n ↦ elim (ℕ_discrete ctx.highest_id 0) [
    | yes z ↦
        ground (arith, a.started, a.empty z, check_first-Answers ctx hist id a (omega arith) z)
    | no m ↦ elim (dec_lt ctx.highest_id id) [
      | yes h ↦ ground (arith, a.started, check_new-Answers ctx hist id a (omega arith) h)
      | no h ↦
          ground (arith, a.started, check_old-Answers ctx hist id a (omega arith) (omega arith))
    ]
  ]
]

-- Over any sequence of ids.
run_from : (ctx : ReplayCtx) (hist ids : List ℕ) → Agrees ctx hist → run ctx ids ≡ spec_run hist ids
unfolding run spec_run
run_from ctx hist [] a = refl
run_from ctx hist (id ∷ ids) a =
    let step = check-Answers ctx hist id a in
    ap₂ ◌∷◌ step.0 (run_from (check ctx id).1 _ ids step.1)

passed_from :
    (ctx : ReplayCtx) (hist ids : List ℕ) → Agrees ctx hist → passed ctx ids ≡ spec_passed hist ids
unfolding passed spec_passed
passed_from ctx hist [] a = refl
passed_from ctx hist (id ∷ ids) a = elim (Bool-cases (is_fresh hist id)) [
  | inl f ↦
      let step = rw f at (check-Answers ctx hist id a) in
      rw (f, step.0) (ap (◌∷◌ id) (passed_from (check ctx id).1 (id ∷ hist) ids step.1))
  | inr f ↦
      let step = rw f at (check-Answers ctx hist id a) in
      rw (f, step.0) (passed_from (check ctx id).1 hist ids step.1)
]

-- After a reset the window answers every sequence of packets as the list of all accepted ids
-- would: an id passes if it is not 0, is less than 64 below the highest, and has not passed before.
pub run_refines : (ctx : ReplayCtx) (ids : List ℕ) → run (init ctx) ids ≡ spec_run [] ids
run_refines ctx ids = run_from (init ctx) [] ids (init-Agrees ctx)

pub passed_refines : (ctx : ReplayCtx) (ids : List ℕ) → passed (init ctx) ids ≡ spec_passed [] ids
passed_refines ctx ids = passed_from (init ctx) [] ids (init-Agrees ctx)

-- After a reset no packet id passes twice, whatever ids arrive and in whatever order.
pub passed-Distinct : (ctx : ReplayCtx) (ids : List ℕ) → Distinct (passed (init ctx) ids)
passed-Distinct ctx ids = rw (passed_refines ctx ids) (spec_passed-Distinct [] ids)
