-- ===== src/Tlv/Examples.antt =====
-- Runs of the TLV builder, finder and readers, and their theorems at concrete maps.
use iot_yk.Base.{ℕ, ◌≡◌, refl, none, some, List, [], ◌∷◌, replicate, arith}
use iot_yk.Tlv.{Builder}
use iot_yk.Tlv.Build.{
  uint8, uint16, uint32, bytes, field_bytes, entry_bytes, add_field, IsBuilder, Grows,
  add_field-Grows,
}
use iot_yk.Tlv.RoundTrip.{Entries, entries_bytes, field_of, Finds}
use iot_yk.Tlv.Built.{build, find-build}
use iot_yk.Tlv.Find.{Tlv}
use iot_yk.Tlv.Read.{read_uint8}
use iot_yk.Tlv.Sent.{find-build-Reads}
use iot_yk.Tlv.Endless.{find_endless}
use iot_yk.Cbor.Encoding.{head_bytes}
use iot_yk.Base.Bytes.{done}
use iot_yk.Tlv.Find.{byte_at, u16_at, skip_value, turn_value, turn, find_loop, find, skip_string}

-- A state and a nonce of two bytes; the nonce is found behind the state.
abbrev small_map : List ℕ
small_map = 0xbf ∷ 3 ∷ 1 ∷ 0x0a ∷ 0x42 ∷ 7 ∷ 8 ∷ 0xff ∷ []

find-small_map :
    find 8 small_map 8 0x0a
    ≡ some (done (some (record { type_id = 0x0a; length = 3; value = 0x42 ∷ 7 ∷ 8 ∷ 0xff ∷ [] })))
unfolding find find_loop turn turn_value byte_at skip_value
find-small_map = refl

find_absent : find 8 small_map 8 9 ≡ some (done none)
unfolding find find_loop turn turn_value byte_at skip_value
find_absent = refl

find_hangs : find 100 (0xbf ∷ 1 ∷ 0x79 ∷ 0xff ∷ 0xfc ∷ []) 5 9 ≡ none
unfolding find find_loop turn turn_value byte_at skip_value skip_string u16_at
find_hangs = refl

find_endless_example : find 1000 (0xbf ∷ 1 ∷ 0x79 ∷ 0xff ∷ 0xfc ∷ []) 5 9 ≡ none
find_endless_example = find_endless 1000 1 9 5 [] (omega arith) (omega arith) (omega arith)

-- A buffer of 12 bytes that holds the start of a map.
abbrev started : Builder
started = record { buf = 0xbf ∷ replicate 11 0; cap = 12; len = 1 }

started-IsBuilder : IsBuilder started
started-IsBuilder = record { cursor = omega arith; room = omega arith; narrow = omega arith }

add_field-Grows_example :
    Grows started (entry_bytes 0x0a (uint16 700)) (add_field started 0x0a (uint16 700))
unfolding field_bytes head_bytes
add_field-Grows_example =
    add_field-Grows started 0x0a started-IsBuilder (omega arith) (uint16 700) (omega arith)
      (omega arith)

-- Two entries under the same key, and one behind a key that takes two bytes.
abbrev fields : Entries
fields = (3, uint8 1) ∷ (0x40, bytes (7 ∷ 8 ∷ [])) ∷ (3, uint32 70000) ∷ []

find-build_example : Finds 0x40 (some (bytes (7 ∷ 8 ∷ []))) (
    find
      (build (replicate 24 9) 20 fields).0
      (build (replicate 24 9) 20 fields).1.buf
      (build (replicate 24 9) 20 fields).0
      0x40)
unfolding entries_bytes field_of field_bytes head_bytes
find-build_example =
    find-build (replicate 24 9) 20 fields 0x40
      (omega arith, omega arith, (omega arith, omega arith, (omega arith, omega arith, tt)))
      (omega arith) (omega arith) (omega arith)

find-build-Reads_example :
    let r = build (replicate 24 9) 20 fields in
    (t : Tlv) × ((find r.0 r.1.buf r.0 3 ≡ some (done (some t))) × (read_uint8 t ≡ done (some 1)))
unfolding entries_bytes field_of field_bytes head_bytes
find-build-Reads_example =
    find-build-Reads (replicate 24 9) 20 fields 3 (uint8 1)
      (omega arith, omega arith, (omega arith, omega arith, (omega arith, omega arith, tt)))
      (omega arith) (omega arith) (omega arith) refl
