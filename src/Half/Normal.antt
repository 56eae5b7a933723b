-- ===== src/Half/Normal.antt =====
-- A half-precision number written and read: ykp_cbor.h and ykp_packet.c agree on normal numbers.
use iot_yk.Base.{
  false, ℕ, ◌+◌, ◌-◌, ◌*◌, ◌/◌, ◌%◌, ◌^◌, ◌≤◌, ◌<◌, ◌≡◌, ap, ◌∙◌, bit_and, bit_or, leb-false, ◌==◌,
  arith,
}
use iot_yk.Base.Bits.{bit_and-mask, bit_and-shifted, bit_or-shifted}
use iot_yk.Half.{float32_to_float16, float16_to_float32}

-- The field of `k` bits from bit `d` on, under a mask that is shifted to it.
field : (k d w : ℕ) → bit_and w ((2 ^ k - 1) * 2 ^ d) ≡ w / 2 ^ d % 2 ^ k * 2 ^ d
field k d w =
    bit_and-shifted d w (2 ^ k - 1) ∙ ap (λ (t : ℕ). t * 2 ^ d) (bit_and-mask k (w / 2 ^ d))

-- The patterns of a normal number: sign, exponent and mantissa, and the 13 bits that are cut.
abbrev pub float32 : ℕ → ℕ → ℕ → ℕ → ℕ
float32 sign exponent mantissa low =
    sign * 2 ^ 31 + (exponent + 112) * 2 ^ 23 + mantissa * 2 ^ 13 + low

abbrev pub float16 : ℕ → ℕ → ℕ → ℕ
float16 sign exponent mantissa = sign * 2 ^ 15 + exponent * 2 ^ 10 + mantissa

module _ (s e m : ℕ) (hs : s < 2) (e_low : 1 ≤ e) (e_high : e < 31) (hm : m < 1024) where
  encode_normal : (low : ℕ) → low < 2 ^ 13 → float32_to_float16 (float32 s e m low) ≡ float16 s e m
  unfolding float32_to_float16
  encode_normal low hl =
      let f = float32 s e m low in
      let sign : bit_and (f / 2 ^ 16) 0x8000 ≡ s * 2 ^ 15 = field 1 15 (f / 2 ^ 16) ∙ omega arith in
      let exponent : bit_and (f / 2 ^ 23) 0xff ≡ e + 112 =
        bit_and-mask 8 (f / 2 ^ 23) ∙ omega arith in
      let mantissa : bit_and f 0x7fffff ≡ m * 2 ^ 13 + low = bit_and-mask 23 f ∙ omega arith in
      let cut : (m * 2 ^ 13 + low) / 2 ^ 13 ≡ m = omega arith in
      let biased : e + 112 - 112 ≡ e = omega arith in
      let join1 : bit_or (s * 2 ^ 15) (e * 2 ^ 10) ≡ (s * 2 ^ 5 + e) * 2 ^ 10 =
        bit_or-shifted 15 s (e * 2 ^ 10) (omega arith) ∙ omega arith in
      let join2 : bit_or ((s * 2 ^ 5 + e) * 2 ^ 10) m ≡ float16 s e m =
        bit_or-shifted 10 (s * 2 ^ 5 + e) m (omega arith) ∙ omega arith in
      let not_zero : (e + 112 == 0) ≡ false = ground arith in
      let not_inf : (e + 112 == 0xff) ≡ false = ground arith in
      rw (sign, exponent, mantissa)
        (rw
          (
            not_zero,
            not_inf,
            leb-false (31 + 112) (e + 112) (omega arith),
            leb-false (e + 112) 112 (omega arith),
          )
          (rw (cut, biased) (rw join1 join2)))

  decode_normal : float16_to_float32 (float16 s e m) ≡ float32 s e m 0
  unfolding float16_to_float32
  decode_normal =
      let h = float16 s e m in
      let sign : bit_and h 0x8000 ≡ s * 2 ^ 15 = field 1 15 h ∙ omega arith in
      let exponent : bit_and h 0x7c00 ≡ e * 2 ^ 10 = field 5 10 h ∙ omega arith in
      let mantissa : bit_and h 0x03ff ≡ m = bit_and-mask 10 h ∙ omega arith in
      let shifted : e * 2 ^ 10 / 2 ^ 10 ≡ e = omega arith in
      let not_zero : (e == 0) ≡ false = ground arith in
      let not_inf : (e == 31) ≡ false = ground arith in
      let biased : e + 127 - 15 ≡ e + 112 = omega arith in
      let high : s * 2 ^ 15 * 2 ^ 16 ≡ s * 2 ^ 31 = omega arith in
      let join1 : bit_or (s * 2 ^ 31) ((e + 112) * 2 ^ 23) ≡ (s * 2 ^ 8 + (e + 112)) * 2 ^ 23 =
        bit_or-shifted 31 s ((e + 112) * 2 ^ 23) (omega arith) ∙ omega arith in
      let join2 : bit_or ((s * 2 ^ 8 + (e + 112)) * 2 ^ 23) (m * 2 ^ 13) ≡ float32 s e m 0 =
        bit_or-shifted 23 (s * 2 ^ 8 + (e + 112)) (m * 2 ^ 13) (omega arith) ∙ omega arith in
      rw (sign, exponent, mantissa)
        (rw shifted (rw (not_zero, not_inf, biased) (rw high (rw join1 join2))))

-- A normal half-precision pattern is read as the single-precision number that it stands for, and
-- writing that number, with whatever stands in the 13 lowest bits of its mantissa, gives the
-- pattern back: the encoder cuts, and nothing else is lost.
pub encode-decode :
    (s e m low : ℕ)
    → s < 2
    → 1 ≤ e
    → e < 31
    → m < 1024
    → low < 2 ^ 13
    → (float16_to_float32 (float16 s e m) ≡ float32 s e m 0)
      × (float32_to_float16 (float16_to_float32 (float16 s e m) + low) ≡ float16 s e m)
encode-decode s e m low hs e_low e_high hm hl =
    let decoded = decode_normal s e m hs e_low e_high hm in
    (
      decoded,
      rw decoded (
          let whole : float32 s e m 0 + low ≡ float32 s e m low = omega arith in
          rw whole (encode_normal s e m hs e_low e_high hm low hl)),
    )
