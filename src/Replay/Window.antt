-- ===== src/Replay/Window.antt =====
-- The window's bits against the history: each branch of `ykp_replay_check` by itself.
use iot_yk.Base.{
  ℕ, zero, suc, ◌+◌, ◌-◌, ◌*◌, ◌%◌, ◌^◌, ◌≤◌, ◌<◌, ◌≡◌, ap, ◌∙◌, ◌⊎◌, bit_or, List, ◌∷◌,
  if◌then◌else◌, arith,
}
use iot_yk.Base.Bits.{
  bit, bit-zero, bit-mod, bit-mul_pow_lt, bit-mul_pow_add, bit-bit_or_pow_self, bit-bit_or_pow_ne,
}
use native.Mathlib.Decide.{dec_lt, ℕ_discrete}
use iot_yk.Replay.History.{highest, contains, contains_above}

-- Bit `d` of the window stands for the id `d` below the highest.
abbrev pub Marks : ℕ → ℕ → List ℕ → Type 0
Marks top bits hist =
    (d : ℕ) → d < 64 → d < top → bit bits d ≡ (if contains hist (top - d) then 1 else 0)

-- A window of one mark, for a history that ends at least 64 below or is empty.
pub Marks-one :
    (id : ℕ) (hist : List ℕ)
    → (highest hist ≡ 0) ⊎ (highest hist + 64 ≤ id)
    → Marks id 1 (id ∷ hist)
unfolding contains
Marks-one id hist far zero h k = ground arith
Marks-one id hist far (suc d) h k = ground (arith, bit-zero d, contains_above hist (id - suc d))

-- Shifting the window by the distance to the new id, and marking that id.
abbrev pub shifted : ℕ → ℕ → ℕ
shifted bits shift = bit_or (bits * 2 ^ shift % 2 ^ 64) 1

bit-shifted_zero : (bits shift : ℕ) → bit (shifted bits shift) 0 ≡ 1
bit-shifted_zero bits shift = bit-bit_or_pow_self (bits * 2 ^ shift % 2 ^ 64) 0

bit-shifted_low : (bits shift d : ℕ) → 0 < d → d < shift → d < 64 → bit (shifted bits shift) d ≡ 0
bit-shifted_low bits shift d h k l =
    bit-bit_or_pow_ne (bits * 2 ^ shift % 2 ^ 64) 0 d (omega arith)
    ∙ bit-mod 64 (bits * 2 ^ shift) d l
    ∙ bit-mul_pow_lt bits shift d k

bit-shifted_high :
    (bits shift d : ℕ)
    → 0 < shift
    → shift ≤ d
    → d < 64
    → bit (shifted bits shift) d ≡ bit bits (d - shift)
bit-shifted_high bits shift d p h l =
    bit-bit_or_pow_ne (bits * 2 ^ shift % 2 ^ 64) 0 d (omega arith)
    ∙ bit-mod 64 (bits * 2 ^ shift) d l
    ∙ ap (bit (bits * 2 ^ shift)) e
    ∙ bit-mul_pow_add bits shift (d - shift)
  where
    e : d ≡ shift + (d - shift)
    e = omega arith

pub Marks-shifted :
    (id bits : ℕ) (hist : List ℕ)
    → highest hist < id
    → 0 < highest hist
    → Marks (highest hist) bits hist
    → Marks id (shifted bits (id - highest hist)) (id ∷ hist)
unfolding contains
Marks-shifted id bits hist h p m zero l k =
    ground (arith, bit-shifted_zero bits (id - highest hist))
Marks-shifted id bits hist h p m (suc d) l k = elim (dec_lt (suc d) (id - highest hist)) [
  | yes low ↦
      bit-shifted_low bits (id - highest hist) (suc d) (omega arith) low l
      ∙ ground (arith, contains_above hist (id - suc d))
  | no high ↦
      bit-shifted_high bits (id - highest hist) (suc d) (omega arith) (omega arith) l
      ∙ m (suc d - (id - highest hist)) (omega arith) (omega arith)
      ∙ (let same : highest hist - (suc d - (id - highest hist)) ≡ id - suc d = omega arith in
          ground (arith, ap (contains hist) same))
]

-- Marking an id inside the window.
pub Marks-or :
    (id bits top : ℕ) (hist : List ℕ)
    → id ≤ top
    → 0 < id
    → Marks top bits hist
    → Marks top (bit_or bits (2 ^ (top - id))) (id ∷ hist)
unfolding contains
Marks-or id bits top hist h p m d l k = elim (ℕ_discrete d (top - id)) [
  | yes e ↦ ground (arith, e, bit-bit_or_pow_self bits (top - id))
  | no n ↦ bit-bit_or_pow_ne bits (top - id) d n ∙ m d l k ∙ ground arith
]
