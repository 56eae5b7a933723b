-- ===== src/Tlv.antt =====
-- The TLV builder of esp32-firmware/main/ykp_core/ykp_packet.c: an indefinite CBOR map in a buffer.
pub mod Find
pub mod Read
pub mod At
pub mod Build
pub mod Skip
pub mod RoundTrip
pub mod ReadBack
pub mod Built
pub mod Sent
pub mod Endless
mod Examples
use iot_yk.Base.{
  ℕ, ◌+◌, ◌-◌, ◌*◌, ◌%◌, ◌^◌, Bool, true, false, not, List, [], ◌∷◌, ltb, if◌then◌else◌, set,
}
use iot_yk.Base.Bytes.{u16}
use iot_yk.Base.Int.{ℤ}
use iot_yk.Cbor.{Encoder, encode_key, encode_uint, encode_int, encode_bytes, encode_str}

pub record Builder : Type 0 where
  pub buf : List ℕ
  pub cap : ℕ
  pub len : ℕ

unfoldable pub builder_init : List ℕ → ℕ → Builder
builder_init buf cap = record { buf = set buf 0 0xbf; cap = cap; len = 1 }

unfoldable pub tlv_to_cbor : Builder → Encoder
tlv_to_cbor b = record { buf = b.buf; size = b.cap; len = b.len; overflow = false }

-- `cbor_to_tlv`, and the answer of every `ykp_tlv_add` function. The buffer is shared.
unfoldable pub cbor_to_tlv : Builder → Encoder → Bool × Builder
cbor_to_tlv b enc = (not enc.overflow, record b { buf = enc.buf; len = u16 enc.len })

unfoldable pub add_uint8 : Builder → ℕ → ℕ → Bool × Builder
unfolding tlv_to_cbor cbor_to_tlv
add_uint8 b type val = cbor_to_tlv b (encode_uint (encode_key (tlv_to_cbor b) type) val)

unfoldable pub add_uint16 : Builder → ℕ → ℕ → Bool × Builder
unfolding tlv_to_cbor cbor_to_tlv
add_uint16 b type val = cbor_to_tlv b (encode_uint (encode_key (tlv_to_cbor b) type) val)

unfoldable pub add_uint32 : Builder → ℕ → ℕ → Bool × Builder
unfolding tlv_to_cbor cbor_to_tlv
add_uint32 b type val = cbor_to_tlv b (encode_uint (encode_key (tlv_to_cbor b) type) val)

unfoldable pub add_uint64 : Builder → ℕ → ℕ → Bool × Builder
unfolding tlv_to_cbor cbor_to_tlv
add_uint64 b type val = cbor_to_tlv b (encode_uint (encode_key (tlv_to_cbor b) type) val)

unfoldable pub add_int32 : Builder → ℕ → ℤ → Bool × Builder
unfolding tlv_to_cbor cbor_to_tlv
add_int32 b type val = cbor_to_tlv b (encode_int (encode_key (tlv_to_cbor b) type) val)

unfoldable pub add_bytes : Builder → ℕ → List ℕ → Bool × Builder
unfolding tlv_to_cbor cbor_to_tlv
add_bytes b type bytes = cbor_to_tlv b (encode_bytes (encode_key (tlv_to_cbor b) type) bytes)

unfoldable pub add_string : Builder → ℕ → List ℕ → Bool × Builder
unfolding tlv_to_cbor cbor_to_tlv
add_string b type str = cbor_to_tlv b (encode_str (encode_key (tlv_to_cbor b) type) str)

-- The break byte goes behind the map, or over its last byte if the buffer is full.
unfoldable pub builder_len : Builder → ℕ × Builder
builder_len b =
    if ltb b.len b.cap
    then (u16 (b.len + 1), record b { buf = set b.buf b.len 0xff })
    else (b.cap, record b { buf = set b.buf (b.cap - 1) 0xff })
