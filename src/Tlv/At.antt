-- ===== src/Tlv/At.antt =====
-- Reading a buffer at an index, where what stands there is known.
use iot_yk.Base.{
  ℕ, zero, suc, ◌+◌, ◌/◌, ◌%◌, ◌^◌, ◌<◌, ◌≡◌, List, [], ◌∷◌, ◌++◌, length, drop, arith,
}
use iot_yk.Base.Bytes.{done}
use iot_yk.Wire.{write_u16_be, byte_of, join16}
use iot_yk.Tlv.Find.{byte_at, u16_at}

-- From index `i` on the buffer holds `xs`.
abbrev pub At : List ℕ → ℕ → List ℕ → Type 0
At buf i xs = drop i buf ≡ xs

pub byte_at-At : (buf : List ℕ) (i x : ℕ) (xs : List ℕ) → At buf i (x ∷ xs) → byte_at buf i ≡ done x
unfolding byte_at
byte_at-At [] zero x xs e = ground arith
byte_at-At [] (suc i) x xs e = ground arith
byte_at-At (b ∷ buf) zero x xs e = ground arith
byte_at-At (b ∷ buf) (suc i) x xs e = byte_at-At buf i x xs e

pub At-tail : (buf : List ℕ) (i x : ℕ) (xs : List ℕ) → At buf i (x ∷ xs) → At buf (i + 1) xs
At-tail [] zero x xs e = ground arith
At-tail [] (suc i) x xs e = ground arith
At-tail (b ∷ buf) zero x xs e = ground arith
At-tail (b ∷ buf) (suc i) x xs e =
    let shift : suc i + 1 ≡ suc (i + 1) = omega arith in rw shift (At-tail buf i x xs e)

pub At-append :
    (buf : List ℕ) (i : ℕ) (xs ys : List ℕ) → At buf i (xs ++ ys) → At buf (i + length xs) ys
At-append buf i [] ys e = let none_left : i + 0 ≡ i = omega arith in rw none_left e
At-append buf i (x ∷ xs) ys e =
    let shift : i + suc (length xs) ≡ i + 1 + length xs = omega arith in
    rw shift (At-append buf (i + 1) xs ys (At-tail buf i x (xs ++ ys) e))

pub u16_at-At :
    (buf : List ℕ) (i v : ℕ) (xs : List ℕ)
    → v < 2 ^ 16
    → At buf i (write_u16_be v ++ xs)
    → u16_at buf i ≡ done v
unfolding u16_at write_u16_be
u16_at-At buf i v xs h e = rw (byte_at-At buf i _ _ e) (
    rw (byte_at-At buf (i + 1) _ _ (At-tail buf i _ _ e))
      (ground (arith, byte_of v, byte_of (v / 256), join16 (v / 256 % 256) (v % 256))))
