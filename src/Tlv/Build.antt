-- ===== src/Tlv/Build.antt =====
-- A map of fields as the builder writes it, field by field.
use iot_yk.Base.{◌∷◌}
use iot_yk.Base.{
  ℕ, ◌+◌, ◌^◌, ◌≤◌, ◌<◌, ◌≡◌, refl, Bool, true, List, ◌++◌, length, length-append, take, arith,
}
use iot_yk.Base.Bytes.{u16}
use iot_yk.Base.Int.{ℤ, pos, negsuc}
use iot_yk.Cbor.{Encoder, encode_key}
use iot_yk.Cbor.Content.{IsEncoder, Appends, write_all, write_all-append, write_all-Appends}
use iot_yk.Cbor.Encoding.{
  head_bytes, uint_bytes, encode_key_lem, encode_uint_lem, encode_int_lem, encode_int_pos,
  encode_bytes_lem, encode_str_lem,
}
use iot_yk.Wire.{write_u16_be}
use iot_yk.Half.{float32_to_float16, encode_float16, add_float}
use iot_yk.Tlv.{
  Builder, tlv_to_cbor, cbor_to_tlv, add_uint8, add_uint16, add_uint32, add_uint64, add_int32,
  add_bytes, add_string,
}

-- What the callers put into a map.
pub data Field : Type 0 where
  uint8 uint16 uint32 uint64 : ℕ → Field
  int32 : ℤ → Field
  bytes string : List ℕ → Field
  half : ℕ → Field

-- The range of the C argument; strings of 256 bytes and more do not fit their length byte.
abbrev pub IsField : Field → Type 0
IsField (uint8 v) = v < 2 ^ 8
IsField (uint16 v) = v < 2 ^ 16
IsField (uint32 v) = v < 2 ^ 32
IsField (uint64 v) = v < 2 ^ 64
IsField (int32 (pos n)) = n < 2 ^ 31
IsField (int32 (negsuc n)) = n < 2 ^ 31
IsField (bytes bs) = length bs < 256
IsField (string bs) = length bs < 256
IsField (half v) = v < 2 ^ 32

unfoldable pub add_field : Builder → ℕ → Field → Bool × Builder
add_field b type (uint8 v) = add_uint8 b type v
add_field b type (uint16 v) = add_uint16 b type v
add_field b type (uint32 v) = add_uint32 b type v
add_field b type (uint64 v) = add_uint64 b type v
add_field b type (int32 v) = add_int32 b type v
add_field b type (bytes bs) = add_bytes b type bs
add_field b type (string bs) = add_string b type bs
add_field b type (half v) = add_float b type v

unfoldable pub field_bytes : Field → List ℕ
field_bytes (uint8 v) = head_bytes 0 v
field_bytes (uint16 v) = head_bytes 0 v
field_bytes (uint32 v) = head_bytes 0 v
field_bytes (uint64 v) = head_bytes 0 v
field_bytes (int32 (pos n)) = head_bytes 0 n
field_bytes (int32 (negsuc n)) = head_bytes 1 n
field_bytes (bytes bs) = head_bytes 2 (length bs) ++ bs
field_bytes (string bs) = head_bytes 3 (length bs) ++ bs
field_bytes (half v) = 0xf9 ∷ write_u16_be (float32_to_float16 v)

-- An entry: a key below 256 and a field.
abbrev pub entry_bytes : ℕ → Field → List ℕ
entry_bytes key f = uint_bytes key ++ field_bytes f

pub record IsBuilder (b : Builder) : Type 0 where
  pub cursor : b.len ≤ b.cap
  pub room : b.cap ≤ length b.buf
  pub narrow : b.cap < 2 ^ 16

abbrev pub written : Builder → List ℕ
written b = take b.len b.buf

-- A call that found room: it answers true, and the map has grown by `bytes`.
pub record Grows (b : Builder) (more : List ℕ) (r : Bool × Builder) : Type 0 where
  pub answers : r.0 ≡ true
  pub valid : IsBuilder r.1
  pub adds : written r.1 ≡ written b ++ more
  pub len_adds : r.1.len ≡ b.len + length more
  pub same_cap : r.1.cap ≡ b.cap

encode_float16_lem :
    (enc : Encoder) (v : ℕ)
    → encode_float16 enc v ≡ write_all enc (0xf9 ∷ write_u16_be (float32_to_float16 v))
unfolding encode_float16 write_all write_u16_be
encode_float16_lem enc v = refl

-- An encoder that has appended to the builder's bytes, handed back.
Grows-of_Appends :
    (b : Builder) (more : List ℕ) (enc : Encoder)
    → IsBuilder b
    → Appends (tlv_to_cbor b) more enc
    → Grows b more (cbor_to_tlv b enc)
unfolding tlv_to_cbor cbor_to_tlv
Grows-of_Appends b more enc v a =
    let cut : u16 enc.len ≡ enc.len = omega (arith, a.valid.cursor, a.same_size, v.narrow) in
    rw (cut, a.same_flag)
      (record {
        answers = refl;
        valid = record {
          cursor = omega (arith, a.valid.cursor, a.same_size);
          room = omega (arith, a.valid.room, a.same_size);
          narrow = v.narrow;
        };
        adds = a.adds;
        len_adds = a.len_adds;
        same_cap = refl;
      })

tlv_to_cbor-IsEncoder : (b : Builder) → IsBuilder b → IsEncoder (tlv_to_cbor b)
unfolding tlv_to_cbor
tlv_to_cbor-IsEncoder b v = record { cursor = v.cursor; room = v.room }

module _ (b : Builder) (key : ℕ) (v : IsBuilder b) (k : key < 256) where
  -- The encoder behind the key.
  keyed : Encoder
  keyed = encode_key (tlv_to_cbor b) key

  keyed-Appends :
      b.len + length (uint_bytes key) ≤ b.cap → Appends (tlv_to_cbor b) (uint_bytes key) keyed
  unfolding keyed tlv_to_cbor
  keyed-Appends room =
      rw (encode_key_lem (tlv_to_cbor b) key k)
        (write_all-Appends (tlv_to_cbor b) (uint_bytes key) (tlv_to_cbor-IsEncoder b v) room)

  entry-Grows :
      (more : List ℕ) (enc : Encoder)
      → b.len + length (uint_bytes key ++ more) ≤ b.cap
      → enc ≡ write_all keyed more
      → Grows b (uint_bytes key ++ more) (cbor_to_tlv b enc)
  unfolding keyed tlv_to_cbor
  entry-Grows more enc room e = Grows-of_Appends b (uint_bytes key ++ more) enc v (
      rw
        (
          e,
          encode_key_lem (tlv_to_cbor b) key k,
          ← write_all-append (tlv_to_cbor b) (uint_bytes key) more,
        )
        (write_all-Appends (tlv_to_cbor b) (uint_bytes key ++ more) (tlv_to_cbor-IsEncoder b v)
          room))

  -- There is room for a string behind the key.
  keyed-room :
      (more : List ℕ)
      → b.len + length (uint_bytes key ++ more) ≤ b.cap
      → IsEncoder keyed × (keyed.len + length more ≤ keyed.size)
  unfolding tlv_to_cbor
  keyed-room more room =
      let a = keyed-Appends (omega (arith, length-append (uint_bytes key) more)) in
      (a.valid, omega (arith, a.len_adds, a.same_size, length-append (uint_bytes key) more))

  -- Where the map has room for the key and the value, a number fits its C type and a string or byte
  -- string has at most 255 bytes: every `ykp_tlv_add` call answers true and writes the key and the
  -- value behind what the map held, an integer, a string and a byte string with the shortest CBOR
  -- head and a float as the half that `float32_to_float16` makes of it; it keeps the cursor inside
  -- the buffer.
  pub add_field-Grows :
      (f : Field)
      → IsField f
      → b.len + length (entry_bytes key f) ≤ b.cap
      → Grows b (entry_bytes key f) (add_field b key f)
  unfolding add_field field_bytes keyed add_uint8 add_uint16 add_uint32 add_uint64 add_int32
      add_bytes add_string add_float
  add_field-Grows (uint8 x) h room = entry-Grows _ _ room (encode_uint_lem keyed x (omega arith))
  add_field-Grows (uint16 x) h room = entry-Grows _ _ room (encode_uint_lem keyed x (omega arith))
  add_field-Grows (uint32 x) h room = entry-Grows _ _ room (encode_uint_lem keyed x (omega arith))
  add_field-Grows (uint64 x) h room = entry-Grows _ _ room (encode_uint_lem keyed x h)
  add_field-Grows (int32 (pos n)) h room =
      entry-Grows _ _ room (encode_int_pos keyed n (omega arith))
  add_field-Grows (int32 (negsuc n)) h room =
      entry-Grows _ _ room (encode_int_lem keyed n (omega arith))
  add_field-Grows (bytes bs) h room =
      let ready = keyed-room (head_bytes 2 (length bs) ++ bs) room in
      entry-Grows _ _ room (encode_bytes_lem keyed bs ready.0 h ready.1)
  add_field-Grows (string bs) h room =
      let ready = keyed-room (head_bytes 3 (length bs) ++ bs) room in
      entry-Grows _ _ room (encode_str_lem keyed bs ready.0 h ready.1)
  add_field-Grows (half v) h room = entry-Grows _ _ room (encode_float16_lem keyed v)
