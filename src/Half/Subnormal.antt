-- ===== src/Half/Subnormal.antt =====
-- The subnormal half-precision numbers, which `ykp_tlv_read_float` of ykp_packet.c reads too small.
use iot_yk.Base.{ℕ, ◌/◌, ◌<◌, ◌≡◌, refl}
use iot_yk.Base.Masks.{agree_below, agree_below→eq}
use iot_yk.Half.{float32_to_float16, float16_to_float32, subnormal_to_float32, normalise}

-- A half-precision pattern below 1024, which is a subnormal number or zero, is read and written
-- again as half of it, rounded down: the reader starts from an exponent that is one too low.
pub halved : (m : ℕ) → m < 1024 → float32_to_float16 (float16_to_float32 m) ≡ m / 2
unfolding agree_below float32_to_float16 float16_to_float32 subnormal_to_float32 normalise
halved = agree_below→eq (λ m. float32_to_float16 (float16_to_float32 m)) (λ m. m / 2) 1024 refl
