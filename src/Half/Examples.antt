-- ===== src/Half/Examples.antt =====
-- The theorems of the half-precision numbers at concrete patterns.
use iot_yk.Base.{◌+◌, ◌≡◌, arith}
use iot_yk.Half.{float32_to_float16, float16_to_float32}
use iot_yk.Half.Normal.{float16, float32, encode-decode}

-- 23.5 with rounding noise in the low bits.
encode-decode_example :
    (float16_to_float32 (float16 0 19 480) ≡ float32 0 19 480 0)
    × (float32_to_float16 (float16_to_float32 (float16 0 19 480) + 77) ≡ float16 0 19 480)
encode-decode_example =
    encode-decode 0 19 480 77 (omega arith) (omega arith) (omega arith) (omega arith) (omega arith)
