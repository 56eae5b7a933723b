-- ===== src/Tlv/ReadBack.antt =====
-- The readers give back the numbers that the builder wrote.
use iot_yk.Base.{
  length, ltb-false, ℕ, ◌^◌, ◌<◌, ◌≡◌, refl, true, some, List, ◌++◌, arith, ltb, Bool-cases, inl,
  inr,
}
use iot_yk.Base.Bytes.{done}
use iot_yk.Base.Masks.{major_mask, info_mask}
use iot_yk.Wire.{read-write_u16_be, read-write_u32_be}
use iot_yk.Cbor.Encoding.{head_bytes}
use iot_yk.Tlv.Find.{Tlv}
use iot_yk.Tlv.Build.{
  Field, uint8, uint16, uint32, uint64, int32, bytes, string, half, IsField, field_bytes,
}
use iot_yk.Tlv.Read.{read_uint8, read_uint16, read_uint32}

module _ (type len n : ℕ) (after : List ℕ) (some_bytes : 0 < len) where
  -- The entry that the finder answers for a number.
  abbrev number : Tlv
  number = record { type_id = type; length = len; value = head_bytes 0 n ++ after }

  pub read_uint8-number : n < 2 ^ 8 → read_uint8 number ≡ done (some n)
  unfolding read_uint8 head_bytes
  read_uint8-number h = rw (ltb-false len 1 some_bytes) (elim (Bool-cases (ltb n 24)) [
    | inl a ↦ rw a (ground (arith, major_mask n, info_mask n))
    | inr a ↦ let b : ltb n (2 ^ 8) ≡ true = ground arith in rw (a, b) refl
  ])

  pub read_uint16-number : n < 2 ^ 16 → read_uint16 number ≡ done (some n)
  unfolding read_uint16 head_bytes
  read_uint16-number h = rw (ltb-false len 1 some_bytes) (elim (Bool-cases (ltb n 24)) [
    | inl a ↦ rw a (ground (arith, major_mask n, info_mask n))
    | inr a ↦ elim (Bool-cases (ltb n (2 ^ 8))) [
      | inl b ↦ rw (a, b) refl
      | inr b ↦
          let c : ltb n (2 ^ 16) ≡ true = ground arith in
          rw (a, b, c) (rw (read-write_u16_be n after h) refl)
    ]
  ])

  pub read_uint32-number : n < 2 ^ 32 → read_uint32 number ≡ done (some n)
  unfolding read_uint32 head_bytes
  read_uint32-number h = rw (ltb-false len 1 some_bytes) (elim (Bool-cases (ltb n 24)) [
    | inl a ↦ rw a (ground (arith, major_mask n, info_mask n))
    | inr a ↦ elim (Bool-cases (ltb n (2 ^ 8))) [
      | inl b ↦ rw (a, b) refl
      | inr b ↦ elim (Bool-cases (ltb n (2 ^ 16))) [
        | inl c ↦ rw (a, b, c) (rw (read-write_u16_be n after (ground arith)) refl)
        | inr c ↦
            let d : ltb n (2 ^ 32) ≡ true = ground arith in
            rw (a, b, c, d) (rw (read-write_u32_be n after h) refl)
      ]
    ]
  ])

head_bytes_some : (major n : ℕ) → 0 < length (head_bytes major n)
unfolding head_bytes
head_bytes_some major n = ground arith

-- What the reader of a field's type makes of an entry; for the other types, the entry's bytes.
abbrev pub Reads : Field → Tlv → Type 0
Reads (uint8 v) t = read_uint8 t ≡ done (some v)
Reads (uint16 v) t = read_uint16 t ≡ done (some v)
Reads (uint32 v) t = read_uint32 t ≡ done (some v)
Reads f t = (after : List ℕ) × (t.value ≡ field_bytes f ++ after)

pub entry-Reads :
    (type : ℕ) (f : Field) (after : List ℕ)
    → IsField f
    → Reads f
        (record { type_id = type; length = length (field_bytes f); value = field_bytes f ++ after })
unfolding field_bytes
entry-Reads type (uint8 v) after h = read_uint8-number type _ v after (head_bytes_some 0 v) h
entry-Reads type (uint16 v) after h = read_uint16-number type _ v after (head_bytes_some 0 v) h
entry-Reads type (uint32 v) after h = read_uint32-number type _ v after (head_bytes_some 0 v) h
entry-Reads type (uint64 v) after h = (after, refl)
entry-Reads type (int32 v) after h = (after, refl)
entry-Reads type (bytes bs) after h = (after, refl)
entry-Reads type (string bs) after h = (after, refl)
entry-Reads type (half v) after h = (after, refl)
