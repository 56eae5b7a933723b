-- ===== src/Wire.antt =====
-- The byte-order helpers of esp32-firmware/main/ykp_core/ykp_packet.c.
use iot_yk.Base.{
  ℕ, ◌+◌, ◌*◌, ◌/◌, ◌%◌, ◌^◌, ◌<◌, ◌≡◌, refl, bit_and, bit_or, List, [], ◌∷◌, ◌++◌, arith,
}
use iot_yk.Base.Bits.{bit_and-mask, bit_or-shifted}
use iot_yk.Base.Bytes.{Run, done, next, ◌>>=◌}

unfoldable pub write_u16_be : ℕ → List ℕ
write_u16_be v = bit_and (v / 2 ^ 8) 0xff ∷ bit_and v 0xff ∷ []

unfoldable pub write_u32_be : ℕ → List ℕ
write_u32_be v =
    bit_and (v / 2 ^ 24) 0xff
    ∷ bit_and (v / 2 ^ 16) 0xff
    ∷ bit_and (v / 2 ^ 8) 0xff
    ∷ bit_and v 0xff
    ∷ []

-- A read leaves the pointer behind what it read.
unfoldable pub read_u16_be : List ℕ → Run (ℕ × List ℕ)
read_u16_be p = do (b0, p) ← next p; (b1, p) ← next p; done (bit_or (b0 * 2 ^ 8) b1, p)

unfoldable pub read_u32_be : List ℕ → Run (ℕ × List ℕ)
read_u32_be p = do
  (b0, p) ← next p
  (b1, p) ← next p
  (b2, p) ← next p
  (b3, p) ← next p
  done (bit_or (bit_or (bit_or (b0 * 2 ^ 24) (b1 * 2 ^ 16)) (b2 * 2 ^ 8)) b3, p)

-- The two bytes of a half word, put together again.
pub join16 : (a b : ℕ) → b < 256 → bit_or (a * 2 ^ 8) b ≡ a * 256 + b
join16 a b h = bit_or-shifted 8 a b h

pub join32 :
    (a b c d : ℕ)
    → b < 256
    → c < 256
    → d < 256
    → bit_or (bit_or (bit_or (a * 2 ^ 24) (b * 2 ^ 16)) (c * 2 ^ 8)) d
      ≡ a * 2 ^ 24 + b * 2 ^ 16 + c * 2 ^ 8 + d
join32 a b c d hb hc hd =
    let e1 : a * 2 ^ 24 ≡ a * 2 ^ 24 = refl in
    let s1 = bit_or-shifted 24 a (b * 2 ^ 16) (omega arith) in
    let f1 : a * 2 ^ 24 + b * 2 ^ 16 ≡ (a * 2 ^ 8 + b) * 2 ^ 16 = omega arith in
    let s2 = bit_or-shifted 16 (a * 2 ^ 8 + b) (c * 2 ^ 8) (omega arith) in
    let f2 : (a * 2 ^ 8 + b) * 2 ^ 16 + c * 2 ^ 8 ≡ ((a * 2 ^ 8 + b) * 2 ^ 8 + c) * 2 ^ 8 =
      omega arith in
    let s3 = bit_or-shifted 8 ((a * 2 ^ 8 + b) * 2 ^ 8 + c) d hd in
    rw (s1, f1, s2, f2, s3) (omega arith)

pub byte_of : (w : ℕ) → bit_and w 0xff ≡ w % 256
byte_of w = bit_and-mask 8 w

pub read-write_u16_be :
    (v : ℕ) (rest : List ℕ) → v < 2 ^ 16 → read_u16_be (write_u16_be v ++ rest) ≡ done (v, rest)
unfolding read_u16_be write_u16_be
read-write_u16_be v rest h =
    ground (arith, byte_of v, byte_of (v / 256), join16 (v / 256 % 256) (v % 256))

pub read-write_u32_be :
    (v : ℕ) (rest : List ℕ) → v < 2 ^ 32 → read_u32_be (write_u32_be v ++ rest) ≡ done (v, rest)
unfolding read_u32_be write_u32_be
read-write_u32_be v rest h = ground (
  arith,
  byte_of v,
  byte_of (v / 2 ^ 8),
  byte_of (v / 2 ^ 16),
  byte_of (v / 2 ^ 24),
  join32 (v / 2 ^ 24 % 256) (v / 2 ^ 16 % 256) (v / 2 ^ 8 % 256) (v % 256),
)
