-- ===== src/Cbor/Encoding.antt =====
-- The encodings as byte sequences (RFC 8949), and that the encoder writes them.
use iot_yk.Base.{
  ℕ, ◌+◌, ◌*◌, ◌/◌, ◌%◌, ◌^◌, ◌≤◌, ◌<◌, ◌≡◌, refl, sym, ap, ◌∙◌, bit_or, List, [], ◌∷◌, ◌++◌, ltb,
  ◌==◌, if◌then◌else◌, length, length-append, arith, Bool-cases, inl, inr,
}
use iot_yk.Base.Bytes.{u8}
use iot_yk.Base.Int.{ℤ, pos, negsuc}
use iot_yk.Base.Bits.{bit_or-shifted}
use iot_yk.Wire.{byte_of, write_u16_be, write_u32_be}
use iot_yk.Cbor.{
  Encoder, write_byte, write_bytes, encode_key, write_two, write_four, write_down, encode_uint,
  encode_int, encode_str, encode_bytes,
}
use iot_yk.Cbor.Content.{
  IsEncoder, write_all, write_all-append, write_all-Appends, write_bytes-write_all,
}

-- A head of the major type `major` with the argument `n`, in its shortest form.
unfoldable pub head_bytes : ℕ → ℕ → List ℕ
unfolding write_u16_be write_u32_be
head_bytes major n =
    if ltb n 24
    then (major * 32 + n) ∷ []
    else if ltb n (2 ^ 8)
    then (major * 32 + 24) ∷ n ∷ []
    else if ltb n (2 ^ 16)
    then (major * 32 + 25) ∷ write_u16_be n
    else if ltb n (2 ^ 32)
    then (major * 32 + 26) ∷ write_u32_be n
    else (major * 32 + 27) ∷ (write_u32_be (n / 2 ^ 32) ++ write_u32_be (n % 2 ^ 32))

abbrev pub uint_bytes : ℕ → List ℕ
uint_bytes n = head_bytes 0 n

abbrev pub int_bytes : ℤ → List ℕ
int_bytes (pos n) = head_bytes 0 n
int_bytes (negsuc n) = head_bytes 1 n

pub encode_key_lem :
    (enc : Encoder) (key : ℕ) → key < 256 → encode_key enc key ≡ write_all enc (uint_bytes key)
unfolding encode_key write_all head_bytes
encode_key_lem enc key h = ground arith

-- The eight bytes of a 64-bit number are those of its two halves.
write_down_lem :
    (enc : Encoder) (v : ℕ)
    → v < 2 ^ 64
    → write_down 8 enc v ≡ write_all enc (write_u32_be (v / 2 ^ 32) ++ write_u32_be (v % 2 ^ 32))
unfolding write_down write_all write_u32_be
write_down_lem enc v h =
    let e7 : v / 2 ^ 32 / 2 ^ 24 % 256 ≡ v / 2 ^ 56 % 256 = omega arith in
    let e6 : v / 2 ^ 32 / 2 ^ 16 % 256 ≡ v / 2 ^ 48 % 256 = omega arith in
    let e5 : v / 2 ^ 32 / 2 ^ 8 % 256 ≡ v / 2 ^ 40 % 256 = omega arith in
    let e3 : v % 2 ^ 32 / 2 ^ 24 % 256 ≡ v / 2 ^ 24 % 256 = omega arith in
    let e2 : v % 2 ^ 32 / 2 ^ 16 % 256 ≡ v / 2 ^ 16 % 256 = omega arith in
    let e1 : v % 2 ^ 32 / 2 ^ 8 % 256 ≡ v / 2 ^ 8 % 256 = omega arith in
    let e0 : v % 2 ^ 32 % 256 ≡ v / 1 % 256 = omega arith in
    simp (byte_of, e7, e6, e5, e3, e2, e1, e0)

pub encode_uint_lem :
    (enc : Encoder) (v : ℕ) → v < 2 ^ 64 → encode_uint enc v ≡ write_all enc (uint_bytes v)
unfolding encode_uint write_all head_bytes
encode_uint_lem enc v h = ground (arith, write_down_lem (write_byte enc 0x1b) v)

pub encode_int_pos :
    (enc : Encoder) (n : ℕ) → n < 2 ^ 64 → encode_int enc (pos n) ≡ write_all enc (uint_bytes n)
unfolding encode_int
encode_int_pos enc n h = encode_uint_lem enc n h

pub encode_int_lem :
    (enc : Encoder) (n : ℕ)
    → n < 2 ^ 32
    → encode_int enc (negsuc n) ≡ write_all enc (head_bytes 1 n)
unfolding encode_int write_two write_four write_all head_bytes
encode_int_lem enc n h = ground (arith, bit_or-shifted 5 1 n)

-- The head of a string, as `cbor_encode_str` and `cbor_encode_bytes` write it.
str_head_lem :
    (enc : Encoder) (major n : ℕ)
    → n < 256
    → (if ltb n 24
        then write_byte enc (bit_or (major * 2 ^ 5) (u8 n))
        else write_byte (write_byte enc (major * 32 + 24)) (u8 n))
      ≡ write_all enc (head_bytes major n)
unfolding write_all head_bytes
str_head_lem enc major n h = ground (arith, bit_or-shifted 5 major n)

string_lem :
    (enc : Encoder) (head bytes : List ℕ)
    → IsEncoder enc
    → enc.len + length (head ++ bytes) ≤ enc.size
    → write_bytes (write_all enc head) bytes ≡ write_all enc (head ++ bytes)
string_lem enc head bytes v room =
    let a = write_all-Appends enc head v (omega (arith, length-append head bytes)) in
    write_bytes-write_all (write_all enc head) bytes
      (omega (arith, length-append head bytes, a.len_adds, a.same_size))
    ∙ sym (write_all-append enc head bytes)

pub encode_str_lem :
    (enc : Encoder) (str : List ℕ)
    → IsEncoder enc
    → length str < 256
    → enc.len + length (head_bytes 3 (length str) ++ str) ≤ enc.size
    → encode_str enc str ≡ write_all enc (head_bytes 3 (length str) ++ str)
unfolding encode_str
encode_str_lem enc str v short room =
    ap (λ e. write_bytes e str) (str_head_lem enc 3 (length str) short)
    ∙ string_lem enc (head_bytes 3 (length str)) str v room

pub encode_bytes_lem :
    (enc : Encoder) (bytes : List ℕ)
    → IsEncoder enc
    → length bytes < 256
    → enc.len + length (head_bytes 2 (length bytes) ++ bytes) ≤ enc.size
    → encode_bytes enc bytes ≡ write_all enc (head_bytes 2 (length bytes) ++ bytes)
unfolding encode_bytes
encode_bytes_lem enc bytes v short room =
    ap (λ e. write_bytes e bytes) (str_head_lem enc 2 (length bytes) short)
    ∙ string_lem enc (head_bytes 2 (length bytes)) bytes v room

-- How many bytes follow a head byte with this low half.
abbrev pub extra : ℕ → ℕ
extra info =
    if ltb info 24
    then 0
    else if info == 24
    then 1
    else if info == 25
    then 2
    else if info == 26
    then 4
    else 8

pub record HeadShape (major n : ℕ) : Type 0 where
  pub info : ℕ
  pub tail : List ℕ
  pub form : head_bytes major n ≡ (major * 32 + info) ∷ tail
  pub tail_len : length tail ≡ extra info
  pub small : info < 28

pub head_shape : (major n : ℕ) → HeadShape major n
unfolding head_bytes write_u16_be write_u32_be
head_shape major n = elim (Bool-cases (ltb n 24)) [
  | inl a ↦ record {
    info = n;
    tail = [];
    form = ground arith;
    tail_len = ground arith;
    small = ground arith;
  }
  | inr a ↦ elim (Bool-cases (ltb n (2 ^ 8))) [
    | inl b ↦ record {
      info = 24;
      tail = n ∷ [];
      form = rw (a, b);
      tail_len = refl;
      small = omega arith;
    }
    | inr b ↦ elim (Bool-cases (ltb n (2 ^ 16))) [
      | inl c ↦ record {
        info = 25;
        tail = write_u16_be n;
        form = rw (a, b, c);
        tail_len = refl;
        small = omega arith;
      }
      | inr c ↦ elim (Bool-cases (ltb n (2 ^ 32))) [
        | inl d ↦ record {
          info = 26;
          tail = write_u32_be n;
          form = rw (a, b, c, d);
          tail_len = refl;
          small = omega arith;
        }
        | inr d ↦ record {
          info = 27;
          tail = write_u32_be (n / 2 ^ 32) ++ write_u32_be (n % 2 ^ 32);
          form = rw (a, b, c, d);
          tail_len = refl;
          small = omega arith;
        }
      ]
    ]
  ]
]

pub head_short : (major n : ℕ) → n < 24 → head_bytes major n ≡ (major * 32 + n) ∷ []
unfolding head_bytes
head_short major n h = ground arith

pub head_long : (major n : ℕ) → 24 ≤ n → n < 256 → head_bytes major n ≡ (major * 32 + 24) ∷ n ∷ []
unfolding head_bytes
head_long major n h k = ground arith
