-- ===== src/Base/Bits.antt =====
-- Single bits of a word, and what the native `&`, `|` and `<<` do to them.
use Prim.Native.Nat.{
  ℕ, zero, suc, ◌+◌, ◌-◌, ◌*◌, ◌/◌, ◌%◌, ◌^◌, ◌≤◌, ◌<◌, min, max, bit_and, bit_or,
}
use Prim.Native.Nat.{digits, bit_and-bitwise, bit_or-bitwise}
use mathlib.Core.Path.{◌≡◌, refl, ap, ap₂, ◌∙◌}
use mathlib.Core.Logic.{◌≢◌}
use native.Mathlib.Nat.{pow-suc, one-le-pow}
use native.Mathlib.Omega.{arith}

-- One round more than the first number needs changes nothing, nor do any number of them.
module _ (z : ℕ → ℕ) (f : ℕ → ℕ → ℕ) where
  digits-suc : (rounds a b : ℕ) → a ≤ rounds → digits z f (suc rounds) a b ≡ digits z f rounds a b
  digits-suc zero zero b h = refl
  digits-suc zero (suc a) b h = absurd (omega arith)
  digits-suc (suc rounds) zero b h = refl
  digits-suc (suc rounds) (suc a) b h = rw (digits-suc rounds (suc a / 2) (b / 2) (omega arith))

  digits_spare : (spare a b : ℕ) → digits z f (spare + a) a b ≡ digits z f a a b
  digits_spare zero a b = let e : zero + a ≡ a = omega arith in rw e
  digits_spare (suc spare) a b =
      let e : suc spare + a ≡ suc (spare + a) = omega arith in
      rw e (digits-suc (spare + a) a b (omega arith) ∙ digits_spare spare a b)

  digits_enough : (a b : ℕ) → digits z f a (suc a / 2) b ≡ digits z f (suc a / 2) (suc a / 2) b
  digits_enough a b =
      let e : a ≡ a - suc a / 2 + suc a / 2 = omega arith in
      ap (λ n. digits z f n (suc a / 2) b) e ∙ digits_spare (a - suc a / 2) (suc a / 2) b

-- The lowest digit of a union and of an intersection, and the rest.
pub bit_or_step : (a b : ℕ) → bit_or a b ≡ bit_or (a / 2) (b / 2) * 2 + max (a % 2) (b % 2)
bit_or_step zero b = omega (arith, bit_or-bitwise 0 b, bit_or-bitwise 0 (b / 2))
bit_or_step (suc a) b = omega (
  arith,
  bit_or-bitwise (suc a) b,
  bit_or-bitwise (suc a / 2) (b / 2),
  digits_enough (λ y. y) max a (b / 2),
)

pub bit_and_step : (a b : ℕ) → bit_and a b ≡ bit_and (a / 2) (b / 2) * 2 + min (a % 2) (b % 2)
bit_and_step zero b = omega (arith, bit_and-bitwise 0 b, bit_and-bitwise 0 (b / 2))
bit_and_step (suc a) b = omega (
  arith,
  bit_and-bitwise (suc a) b,
  bit_and-bitwise (suc a / 2) (b / 2),
  digits_enough (λ y. 0) min a (b / 2),
)

-- Bit `d` of `w`, counted from the lowest.
abbrev pub bit : ℕ → ℕ → ℕ
bit w zero = w % 2
bit w (suc d) = bit (w / 2) d

pub bit-le-one : (w d : ℕ) → bit w d ≤ 1
bit-le-one w zero = omega arith
bit-le-one w (suc d) = bit-le-one (w / 2) d

-- Halving reaches zero, so both hold by strong induction on the first number.
bit_and-zero_below : (bound a : ℕ) → a < bound → bit_and a 0 ≡ 0
bit_and-zero_below zero a h = elim h [ ]
bit_and-zero_below (suc bound) zero h = refl
bit_and-zero_below (suc bound) (suc a) h =
    omega (arith, bit_and_step (suc a) 0, bit_and-zero_below bound (suc a / 2) (omega arith))

pub bit_and-zero : (a : ℕ) → bit_and a 0 ≡ 0
bit_and-zero a = bit_and-zero_below (suc a) a (omega arith)

bit_or-zero_below : (bound a : ℕ) → a < bound → bit_or a 0 ≡ a
bit_or-zero_below zero a h = elim h [ ]
bit_or-zero_below (suc bound) zero h = refl
bit_or-zero_below (suc bound) (suc a) h =
    omega (arith, bit_or_step (suc a) 0, bit_or-zero_below bound (suc a / 2) (omega arith))

pub bit_or-zero : (a : ℕ) → bit_or a 0 ≡ a
bit_or-zero a = bit_or-zero_below (suc a) a (omega arith)

pow-half : (d : ℕ) → 2 ^ suc d / 2 ≡ 2 ^ d
pow-half d = omega (arith, pow-suc 2 d)

pow-even : (d : ℕ) → 2 ^ suc d % 2 ≡ 0
pow-even d = omega (arith, pow-suc 2 d)

-- `w & (1 << d)` keeps bit `d` in its place.
pub bit_and-pow : (w d : ℕ) → bit_and w (2 ^ d) ≡ bit w d * 2 ^ d
bit_and-pow w zero = omega (arith, bit_and_step w 1, bit_and-zero (w / 2))
bit_and-pow w (suc d) =
    bit_and_step w (2 ^ suc d)
    ∙ rw (pow-half d, pow-even d, bit_and-pow (w / 2) d)
        (omega (arith, ap (λ (t : ℕ). bit (w / 2) d * t) (pow-suc 2 d)))

-- `w | (1 << k)` sets bit `k` and no other.
bit_or-pow_half : (w k : ℕ) → bit_or w (2 ^ suc k) / 2 ≡ bit_or (w / 2) (2 ^ k)
bit_or-pow_half w k = rw (bit_or_step w (2 ^ suc k), pow-half k, pow-even k) (omega arith)

pub bit-bit_or_pow_self : (w k : ℕ) → bit (bit_or w (2 ^ k)) k ≡ 1
bit-bit_or_pow_self w zero = omega (arith, bit_or_step w 1)
bit-bit_or_pow_self w (suc k) = rw (bit_or-pow_half w k) (bit-bit_or_pow_self (w / 2) k)

pub bit-bit_or_pow_ne : (w k d : ℕ) → d ≢ k → bit (bit_or w (2 ^ k)) d ≡ bit w d
bit-bit_or_pow_ne w zero zero h = absurd (h refl)
bit-bit_or_pow_ne w zero (suc d) h =
    ap (λ v. bit v d) (omega (arith, bit_or_step w 1, bit_or-zero (w / 2)))
bit-bit_or_pow_ne w (suc k) zero h = omega (arith, bit_or_step w (2 ^ suc k), pow-even k)
bit-bit_or_pow_ne w (suc k) (suc d) h =
    rw (bit_or-pow_half w k) (bit-bit_or_pow_ne (w / 2) k d (omega arith))

-- Cutting to `n` bits leaves the bits below `n`.
mod_pow_half : (n w : ℕ) → w % 2 ^ suc n / 2 ≡ w / 2 % 2 ^ n
mod_pow_half n w = rw pow-suc (grind (arith, pow-suc))

mod_pow_even : (n w : ℕ) → w % 2 ^ suc n % 2 ≡ w % 2
mod_pow_even n w = rw pow-suc (grind arith)

pub bit-mod : (n w d : ℕ) → d < n → bit (w % 2 ^ n) d ≡ bit w d
bit-mod zero w d h = elim h [ ]
bit-mod (suc n) w zero h = mod_pow_even n w
bit-mod (suc n) w (suc d) h = rw (mod_pow_half n w) (bit-mod n (w / 2) d (omega arith))

-- `w << s` moves each bit up by `s` and fills with zeros.
shift_half : (w s : ℕ) → w * 2 ^ suc s / 2 ≡ w * 2 ^ s
shift_half w s = omega (arith, ap (λ (t : ℕ). w * t) (pow-suc 2 s))

pub bit-mul_pow_lt : (w s d : ℕ) → d < s → bit (w * 2 ^ s) d ≡ 0
bit-mul_pow_lt w zero d h = elim h [ ]
bit-mul_pow_lt w (suc s) zero h = omega (arith, ap (λ (t : ℕ). w * t) (pow-suc 2 s))
bit-mul_pow_lt w (suc s) (suc d) h = rw (shift_half w s) (bit-mul_pow_lt w s d (omega arith))

pub bit-mul_pow_add : (w s d : ℕ) → bit (w * 2 ^ s) (s + d) ≡ bit w d
bit-mul_pow_add w zero d =
    let e : w * 2 ^ zero ≡ w = omega arith in let f : zero + d ≡ d = omega arith in ap₂ bit e f
bit-mul_pow_add w (suc s) d =
    let e : suc s + d ≡ suc (s + d) = omega arith in
    ap (bit (w * 2 ^ suc s)) e ∙ ap (λ v. bit v (s + d)) (shift_half w s) ∙ bit-mul_pow_add w s d

-- A set bit is one that the mask test sees.
pub bit_and-pow_pos : (w d : ℕ) → bit w d ≡ 1 → bit_and w (2 ^ d) ≢ 0
bit_and-pow_pos w d h e =
    omega (arith, bit_and-pow w d, one-le-pow d 2, ap (λ (t : ℕ). t * 2 ^ d) h)

pub bit_and-pow_zero : (w d : ℕ) → bit w d ≡ 0 → bit_and w (2 ^ d) ≡ 0
bit_and-pow_zero w d h = bit_and-pow w d ∙ rw h (omega arith)

pub bit-zero : (d : ℕ) → bit 0 d ≡ 0
bit-zero zero = refl
bit-zero (suc d) = bit-zero d

-- A mask of the `k` low bits is the remainder by `2 ^ k`.
mask_half : (k : ℕ) → (2 ^ suc k - 1) / 2 ≡ 2 ^ k - 1
mask_half k = omega (arith, pow-suc 2 k, one-le-pow k 2)

mask_odd : (k : ℕ) → (2 ^ suc k - 1) % 2 ≡ 1
mask_odd k = omega (arith, pow-suc 2 k, one-le-pow k 2)

pub bit_and-mask : (k w : ℕ) → bit_and w (2 ^ k - 1) ≡ w % 2 ^ k
bit_and-mask zero w = bit_and-zero w ∙ omega arith
bit_and-mask (suc k) w =
    bit_and_step w (2 ^ suc k - 1)
    ∙ rw (mask_half k, mask_odd k, bit_and-mask k (w / 2))
        (omega (arith, mod_pow_half k w, mod_pow_even k w))

-- `(q << k) | r` is a sum where `r` has at most `k` bits.
pub bit_or-shifted : (k q r : ℕ) → r < 2 ^ k → bit_or (q * 2 ^ k) r ≡ q * 2 ^ k + r
bit_or-shifted zero q r h =
    let e : r ≡ 0 = omega arith in rw e (bit_or-zero (q * 2 ^ 0) ∙ omega arith)
bit_or-shifted (suc k) q r h =
    let even = ap (λ (t : ℕ). q * t) (pow-suc 2 k) in
    bit_or_step (q * 2 ^ suc k) r
    ∙ rw (shift_half q k, bit_or-shifted k q (r / 2) (omega (arith, pow-suc 2 k)))
        (omega (arith, even))

div_pow : (k w : ℕ) → w / 2 / 2 ^ k ≡ w / 2 ^ suc k
div_pow k w = rw pow-suc (grind (arith, pow-suc))

pub bit_and-shifted : (k w m : ℕ) → bit_and w (m * 2 ^ k) ≡ bit_and (w / 2 ^ k) m * 2 ^ k
bit_and-shifted zero w m =
    let a : m * 2 ^ 0 ≡ m = omega arith in
    let b : w / 2 ^ 0 ≡ w = omega arith in rw (a, b) (omega arith)
bit_and-shifted (suc k) w m =
    let even = ap (λ (t : ℕ). m * t) (pow-suc 2 k) in
    bit_and_step w (m * 2 ^ suc k)
    ∙ rw (shift_half m k, bit_and-shifted k (w / 2) m)
        (omega (
          arith,
          even,
          div_pow k w,
          ap (λ (t : ℕ). bit_and (w / 2 ^ suc k) m * t) (pow-suc 2 k),
          ap (λ (t : ℕ). bit_and t m * 2 ^ k) (div_pow k w),
        ))
