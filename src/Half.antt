-- ===== src/Half.antt =====
-- Half-precision numbers: `float32_to_float16` of esp32-firmware/main/ykp_core/ykp_cbor.h and
-- `ykp_tlv_read_float` of ykp_core/ykp_packet.c. A `float` is its 32-bit pattern.
pub mod Normal
pub mod Subnormal
mod Examples
use iot_yk.Base.{
  ℕ, zero, suc, ◌+◌, ◌-◌, ◌*◌, ◌/◌, ◌%◌, ◌^◌, bit_and, bit_or, Bool, true, false, not, Option, none,
  some, List, [], ◌∷◌, ltb, leb, ◌==◌, if◌then◌else◌,
}
use iot_yk.Base.Bytes.{Run, done, fault, ◌>>=◌, next, u16, u32}
use iot_yk.Wire.{read_u16_be}
use iot_yk.Cbor.{Encoder, write_byte, encode_key}
use iot_yk.Tlv.{Builder, tlv_to_cbor, cbor_to_tlv}
use iot_yk.Tlv.Find.{Tlv}

-- `new_exp` is signed; `exponent8`, the field of the pattern, is `new_exp` + 112.
unfoldable pub float32_to_float16 : ℕ → ℕ
float32_to_float16 f =
    let sign = bit_and (f / 2 ^ 16) 0x8000 in
    let exponent8 = bit_and (f / 2 ^ 23) 0xff in
    let mantissa = bit_and f 0x7fffff in
    if exponent8 == 0
    then sign
    else if exponent8 == 0xff
    then bit_or (bit_or sign 0x7c00) (if mantissa == 0 then 0 else 0x0200)
    else if leb (31 + 112) exponent8
    then bit_or sign 0x7c00
    else if leb exponent8 112
    then (if ltb exponent8 102
        then sign
        else bit_or sign (bit_or mantissa 0x800000 / 2 ^ (113 - exponent8) / 2 ^ 13))
    else bit_or (bit_or sign ((exponent8 - 112) * 2 ^ 10)) (mantissa / 2 ^ 13)

unfoldable pub encode_float16 : Encoder → ℕ → Encoder
encode_float16 enc val =
    let f16 = float32_to_float16 val in
    write_byte (write_byte (write_byte enc 0xf9) (bit_and (f16 / 2 ^ 8) 0xff)) (bit_and f16 0xff)

unfoldable pub add_float : Builder → ℕ → ℕ → Bool × Builder
add_float b type val = cbor_to_tlv b (encode_float16 (encode_key (tlv_to_cbor b) type) val)

-- The loop that shifts a mantissa up to bit 10. A mantissa from 1 to 1023 takes ten rounds at most.
unfoldable pub normalise : ℕ → ℕ → ℕ → ℕ × ℕ
normalise zero mantissa exponent = (mantissa, exponent)
normalise (suc fuel) mantissa exponent =
    let rest = normalise fuel (u32 (mantissa * 2)) (exponent - 1) in
    if bit_and mantissa 0x0400 == 0 then rest else (mantissa, exponent)

unfoldable pub subnormal_to_float32 : ℕ → ℕ → ℕ
subnormal_to_float32 sign mantissa =
    let (shifted, exponent) = normalise 10 mantissa (127 - 15) in
    bit_or (bit_or sign (exponent * 2 ^ 23)) (bit_and shifted 0x03ff * 2 ^ 13)

unfoldable pub float16_to_float32 : ℕ → ℕ
float16_to_float32 f16 =
    let sign = bit_and f16 0x8000 * 2 ^ 16 in
    let exponent = bit_and f16 0x7c00 / 2 ^ 10 in
    let mantissa = bit_and f16 0x03ff in
    if exponent == 0
    then (if mantissa == 0 then sign else subnormal_to_float32 sign mantissa)
    else if exponent == 31
    then bit_or (bit_or sign 0x7f800000) (mantissa * 2 ^ 13)
    else bit_or (bit_or sign ((exponent + 127 - 15) * 2 ^ 23)) (mantissa * 2 ^ 13)

-- The four bytes of a `float` are copied as they are, least significant first.
unfoldable pub read_float : Tlv → Run (Option ℕ)
read_float tlv =
    if ltb tlv.length 1
    then done none
    else (next tlv.value >>= λ (hdr, behind).
        if hdr == 0xf9
        then (read_u16_be behind >>= λ (f16, end). done (some (float16_to_float32 f16)))
        else if hdr == 0xfa
        then (do
          (b0, p) ← next behind
          (b1, p) ← next p
          (b2, p) ← next p
          (b3, p) ← next p
          done (some (b0 + b1 * 2 ^ 8 + b2 * 2 ^ 16 + b3 * 2 ^ 24)))
        else done none)
