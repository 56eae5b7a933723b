-- ===== src/Security/Pool.antt =====
-- The memory pool that ykp_security.c gives to mbedTLS. `size_t` has 32 bits.
use iot_yk.Base.{
  ℕ, ◌+◌, ◌*◌, ◌/◌, ◌%◌, ◌^◌, ◌-◌, ◌≤◌, ◌≡◌, refl, ap, ◌∙◌, bit_and, true, false, Option, none,
  some, List, [], ◌∷◌, leb, leb→le, Bool-cases, inl, inr, arith, if◌then◌else◌,
}
use iot_yk.Base.Bits.{bit_and-mask, bit_and-shifted}
use iot_yk.Base.Bytes.{u32}

abbrev pub pool_size : ℕ
pool_size = 8192

-- The block, as its place in the pool, and the new offset; `none` is NULL.
unfoldable pub pool_calloc : ℕ → ℕ → ℕ → Option ℕ × ℕ
pool_calloc n size offset =
    let total = bit_and (u32 (u32 (n * size) + 3)) 0xffff_fffc in
    if leb (u32 (offset + total)) pool_size
    then (some offset, u32 (offset + total))
    else (none, offset)

-- The blocks that a sequence of requests gets, each with the bytes asked for.
unfoldable pub blocks : ℕ → List (ℕ × ℕ) → List (ℕ × ℕ)
blocks offset [] = []
blocks offset ((n, size) ∷ requests) =
    let (block, offset') = pool_calloc n size offset in
    let rest = blocks offset' requests in elim block [ none ↦ rest | some p ↦ (p, n * size) ∷ rest ]

-- No request is of more than 2 GB.
abbrev pub Sized : List (ℕ × ℕ) → Type 0
Sized [] = Unit {0}
Sized ((n, size) ∷ requests) = (n * size ≤ 2 ^ 31) × Sized requests

-- Blocks from a place on: aligned, one behind the other, and all inside the pool.
abbrev pub Apart : ℕ → List (ℕ × ℕ) → Type 0
Apart start [] = start ≤ pool_size
Apart start ((p, bytes) ∷ rest) = (start ≤ p) × (p % 4 ≡ 0) × Apart (p + bytes) rest

aligned : (w : ℕ) → bit_and w 0xffff_fffc ≡ w / 4 % 2 ^ 30 * 4
aligned w = bit_and-shifted 2 w (2 ^ 30 - 1) ∙ ap (λ (t : ℕ). t * 4) (bit_and-mask 30 (w / 4))

abbrev offset_after : ℕ → ℕ → ℕ → ℕ
offset_after n size offset = u32 (offset + bit_and (u32 (u32 (n * size) + 3)) 0xffff_fffc)

blocks_nil : (offset : ℕ) → blocks offset [] ≡ []
unfolding blocks
blocks_nil offset = refl

granted :
    (n size offset : ℕ) (requests : List (ℕ × ℕ))
    → leb (offset_after n size offset) pool_size ≡ true
    → blocks offset ((n, size) ∷ requests)
      ≡ (offset, n * size) ∷ blocks (offset_after n size offset) requests
unfolding blocks pool_calloc
granted n size offset requests h = ground (arith, h)

refused :
    (n size offset : ℕ) (requests : List (ℕ × ℕ))
    → leb (offset_after n size offset) pool_size ≡ false
    → blocks offset ((n, size) ∷ requests) ≡ blocks offset requests
unfolding blocks pool_calloc
refused n size offset requests h = ground (arith, h)

blocks_from :
    (start offset : ℕ) (requests : List (ℕ × ℕ))
    → Sized requests
    → start ≤ offset
    → offset % 4 ≡ 0
    → offset ≤ pool_size
    → Apart start (blocks offset requests)
blocks_from start offset [] v h a l = rw blocks_nil (omega arith)
blocks_from start offset ((n, size) ∷ requests) v h a l =
    let total = bit_and (u32 (u32 (n * size) + 3)) 0xffff_fffc in
    let rounded : total ≡ (n * size + 3) / 4 * 4 =
      aligned (u32 (u32 (n * size) + 3)) ∙ omega (arith, v.0) in
    let next : u32 (offset + total) ≡ offset + total = omega (arith, rounded, v.0) in
    elim (Bool-cases (leb (u32 (offset + total)) pool_size)) [
      | inl fits ↦
          let inside = leb→le (u32 (offset + total)) pool_size fits in
          rw (granted n size offset requests fits) (
            h,
            a,
            blocks_from (offset + n * size) (u32 (offset + total)) requests v.1
                (omega (arith, next, rounded)) (omega (arith, next, rounded, a)) inside,
          )
      | inr full ↦
          rw (refused n size offset requests full) (blocks_from start offset requests v.1 h a l)
    ]

-- Whatever an empty pool is asked for, in requests of up to 2 GB each, the blocks that it gives out
-- are aligned to four bytes, lie inside the pool, and no two of them overlap.
pub blocks-Apart : (requests : List (ℕ × ℕ)) → Sized requests → Apart 0 (blocks 0 requests)
blocks-Apart requests v = blocks_from 0 0 requests v (omega arith) refl (omega arith)
