-- ===== src/Cbor.antt =====
-- esp32-firmware/main/ykp_core/ykp_cbor.h: the CBOR encoder over a fixed buffer.
pub mod Content
pub mod Encoding
use iot_yk.Base.{
  ℕ, zero, suc, ◌+◌, ◌*◌, ◌/◌, ◌%◌, ◌^◌, bit_and, bit_or, Bool, true, false, List, [], ◌∷◌, ltb,
  leb, if◌then◌else◌, length, set,
}
use iot_yk.Base.Bytes.{u8}
use iot_yk.Base.Int.{ℤ, pos, negsuc}

pub record Encoder : Type 0 where
  pub buf : List ℕ
  pub size : ℕ
  pub len : ℕ
  pub overflow : Bool

unfoldable pub encoder_init : List ℕ → ℕ → Encoder
encoder_init buf size = record { buf = buf; size = size; len = 0; overflow = false }

unfoldable pub write_byte : Encoder → ℕ → Encoder
write_byte enc b =
    if ltb enc.len enc.size
    then record enc { buf = set enc.buf enc.len b; len = enc.len + 1 }
    else record enc { overflow = true }

-- `memcpy(&buf[i], data, size)`
unfoldable pub copy_at : List ℕ → ℕ → List ℕ → List ℕ
copy_at buf i [] = buf
copy_at buf i (b ∷ bytes) = copy_at (set buf i b) (i + 1) bytes

unfoldable pub write_bytes : Encoder → List ℕ → Encoder
unfolding copy_at
write_bytes enc bytes =
    if leb (enc.len + length bytes) enc.size
    then record enc { buf = copy_at enc.buf enc.len bytes; len = enc.len + length bytes }
    else record enc { overflow = true }

unfoldable pub encode_map_header : Encoder → ℕ → Encoder
encode_map_header enc pairs =
    if ltb pairs 24
    then write_byte enc (bit_or 0xa0 (u8 pairs))
    else write_byte (write_byte enc 0xb8) (u8 pairs)

unfoldable pub encode_key : Encoder → ℕ → Encoder
encode_key enc key = if ltb key 24 then write_byte enc key else write_byte (write_byte enc 0x18) key

-- The two and the four lowest bytes of a number, the highest first.
unfoldable pub write_two : Encoder → ℕ → Encoder
write_two enc val = write_byte (write_byte enc (bit_and (val / 2 ^ 8) 0xff)) (bit_and val 0xff)

unfoldable pub write_four : Encoder → ℕ → Encoder
unfolding write_two
write_four enc val =
    write_two
      (write_byte (write_byte enc (bit_and (val / 2 ^ 24) 0xff)) (bit_and (val / 2 ^ 16) 0xff)) val

-- `for (int i = n - 1; i >= 0; i--)`
unfoldable pub write_down : ℕ → Encoder → ℕ → Encoder
write_down zero enc val = enc
write_down (suc i) enc val = write_down i (write_byte enc (bit_and (val / 2 ^ (i * 8)) 0xff)) val

unfoldable pub encode_uint : Encoder → ℕ → Encoder
unfolding write_two write_four
encode_uint enc val =
    if ltb val 24
    then write_byte enc (u8 val)
    else if leb val 0xff
    then write_byte (write_byte enc 0x18) (u8 val)
    else if leb val 0xffff
    then write_two (write_byte enc 0x19) val
    else if leb val 0xffff_ffff
    then write_four (write_byte enc 0x1a) val
    else write_down 8 (write_byte enc 0x1b) val

-- `uv` is -1 - val, which is `n` for `negsuc n`.
unfoldable pub encode_int : Encoder → ℤ → Encoder
encode_int enc (pos n) = encode_uint enc n
encode_int enc (negsuc uv) =
    if ltb uv 24
    then write_byte enc (bit_or 0x20 (u8 uv))
    else if leb uv 0xff
    then write_byte (write_byte enc 0x38) (u8 uv)
    else if leb uv 0xffff
    then write_two (write_byte enc 0x39) uv
    else write_four (write_byte enc 0x3a) uv

unfoldable pub encode_bool : Encoder → Bool → Encoder
encode_bool enc val = write_byte enc (if val then 0xf5 else 0xf4)

-- A C string, given without its end.
unfoldable pub encode_str : Encoder → List ℕ → Encoder
encode_str enc str =
    let len = length str in
    write_bytes
      (if ltb len 24
        then write_byte enc (bit_or 0x60 (u8 len))
        else write_byte (write_byte enc 0x78) (u8 len))
      str

unfoldable pub encode_bytes : Encoder → List ℕ → Encoder
encode_bytes enc bytes =
    let len = length bytes in
    write_bytes
      (if ltb len 24
        then write_byte enc (bit_or 0x40 (u8 len))
        else write_byte (write_byte enc 0x58) (u8 len))
      bytes
