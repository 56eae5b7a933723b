-- ===== src/Tlv/Skip.antt =====
-- `ykp_tlv_find` steps over what the builder writes.
use iot_yk.Base.{
  ℕ, suc, ◌+◌, ◌*◌, ◌%◌, ◌^◌, ◌≤◌, ◌<◌, ◌≡◌, inl, inr, ap, ◌∙◌, List, ◌∷◌, ◌++◌, length,
  length-append, arith, ltb, Bool-cases, lt→ltb, if◌then◌else◌,
}
use iot_yk.Base.Bytes.{done, u16}
use iot_yk.Base.Masks.{major_mask, info_mask}
use iot_yk.Base.Int.{pos, negsuc}
use iot_yk.Cbor.Encoding.{head_bytes, extra, head_shape, head_short, head_long}
use iot_yk.Wire.{write_u16_be}
use iot_yk.Tlv.Find.{byte_at, skip_fixed, skip_string, skip_simple, skip_value}
use iot_yk.Tlv.At.{At, byte_at-At, At-tail}
use iot_yk.Tlv.Build.{
  Field, uint8, uint16, uint32, uint64, int32, bytes, string, half, IsField, field_bytes,
}

-- A value at index `i` that is stepped over: to the index `len` bytes further on.
pub record Skips (buf : List ℕ) (i len : ℕ) : Type 0 where
  pub hdr : ℕ
  pub reads : byte_at buf i ≡ done hdr
  pub skips : skip_value buf hdr (u16 (i + 1)) ≡ done (i + len)

skip_int :
    (buf : List ℕ) (hdr j : ℕ)
    → hdr < 64
    → skip_value buf hdr j ≡ done (if ltb (hdr % 32) 24 then j else skip_fixed (hdr % 32) j)
unfolding skip_value
skip_int buf hdr j h = ground (arith, major_mask hdr, info_mask hdr)

-- Behind the head byte of an integer the index moves by the bytes that follow it.
skip_extra :
    (i info : ℕ)
    → info < 28
    → i + 9 < 2 ^ 16
    → (if ltb info 24 then u16 (i + 1) else skip_fixed info (u16 (i + 1))) ≡ i + suc (extra info)
unfolding skip_fixed
skip_extra i info h k = ground arith

head_Skips :
    (buf : List ℕ) (i major n : ℕ) (rest : List ℕ)
    → major ≤ 1
    → At buf i (head_bytes major n ++ rest)
    → i + 9 < 2 ^ 16
    → Skips buf i (length (head_bytes major n))
head_Skips buf i major n rest m at k =
    let s = head_shape major n in
    let low : (major * 32 + s.info) % 32 ≡ s.info = omega (arith, s.small) in
    rw (s.form, s.tail_len)
      (record {
        hdr = major * 32 + s.info;
        reads = byte_at-At buf i _ (s.tail ++ rest) (rw s.form at at);
        skips =
            skip_int buf (major * 32 + s.info) (u16 (i + 1)) (omega (arith, s.small))
            ∙ ap done (rw low (skip_extra i s.info s.small k));
      })

-- A string whose length stands in the head byte, or in the byte behind it.
skip_str :
    (buf : List ℕ) (hdr j : ℕ)
    → 64 ≤ hdr
    → hdr < 128
    → skip_value buf hdr j ≡ skip_string buf (hdr % 32) j
unfolding skip_value
skip_str buf hdr j h k = ground (arith, major_mask hdr, info_mask hdr)

short_Skips :
    (buf : List ℕ) (i major : ℕ) (bs rest : List ℕ)
    → 2 ≤ major
    → major ≤ 3
    → length bs < 24
    → At buf i ((major * 32 + length bs) ∷ rest)
    → i + 2 + length bs < 2 ^ 16
    → Skips buf i (suc (length bs))
unfolding skip_string
short_Skips buf i major bs rest lo hi short at k =
    let n = length bs in
    let low : (major * 32 + n) % 32 ≡ n = omega arith in
    record {
      hdr = major * 32 + n;
      reads = byte_at-At buf i _ rest at;
      skips =
          skip_str buf (major * 32 + n) (u16 (i + 1)) (omega arith) (omega arith)
          ∙ rw (low, lt→ltb n 24 short) (ap done (omega arith));
    }

long_Skips :
    (buf : List ℕ) (i major n : ℕ) (rest : List ℕ)
    → 2 ≤ major
    → major ≤ 3
    → At buf i ((major * 32 + 24) ∷ n ∷ rest)
    → i + 2 + n < 2 ^ 16
    → Skips buf i (suc (suc n))
unfolding skip_string
long_Skips buf i major n rest lo hi at k =
    let here : u16 (i + 1) ≡ i + 1 = omega arith in
    let low : (major * 32 + 24) % 32 ≡ 24 = omega arith in
    record {
      hdr = major * 32 + 24;
      reads = byte_at-At buf i _ (n ∷ rest) at;
      skips =
          skip_str buf (major * 32 + 24) (u16 (i + 1)) (omega arith) (omega arith)
          ∙ rw (low, here)
              (rw (byte_at-At buf (i + 1) n rest (At-tail buf i _ (n ∷ rest) at))
                (ap done (omega arith)));
    }

string_Skips :
    (buf : List ℕ) (i major : ℕ) (bs rest : List ℕ)
    → 2 ≤ major
    → major ≤ 3
    → length bs < 256
    → At buf i ((head_bytes major (length bs) ++ bs) ++ rest)
    → i + 2 + length bs < 2 ^ 16
    → Skips buf i (length (head_bytes major (length bs) ++ bs))
string_Skips buf i major bs rest lo hi short at k = elim (Bool-cases (ltb (length bs) 24)) [
  | inl a ↦
      let h = head_short major (length bs) (ground arith) in
      rw h (short_Skips buf i major bs (bs ++ rest) lo hi (ground arith) (rw h at at) k)
  | inr a ↦
      let h = head_long major (length bs) (ground arith) short in
      rw h (long_Skips buf i major (length bs) (bs ++ rest) lo hi (rw h at at) k)
]

half_Skips :
    (buf : List ℕ) (i : ℕ) (rest : List ℕ) → At buf i (0xf9 ∷ rest) → i + 9 < 2 ^ 16 → Skips buf i 3
unfolding skip_value skip_simple
half_Skips buf i rest at k = record {
  hdr = 0xf9;
  reads = byte_at-At buf i _ rest at;
  skips = ap done (omega arith);
}

-- Any field of a map is stepped over as a whole.
pub field_Skips :
    (buf : List ℕ) (i : ℕ) (f : Field) (rest : List ℕ)
    → IsField f
    → At buf i (field_bytes f ++ rest)
    → i + 9 + length (field_bytes f) < 2 ^ 16
    → Skips buf i (length (field_bytes f))
unfolding field_bytes write_u16_be
field_Skips buf i (uint8 v) rest h at k = head_Skips buf i 0 v rest (omega arith) at (omega arith)
field_Skips buf i (uint16 v) rest h at k = head_Skips buf i 0 v rest (omega arith) at (omega arith)
field_Skips buf i (uint32 v) rest h at k = head_Skips buf i 0 v rest (omega arith) at (omega arith)
field_Skips buf i (uint64 v) rest h at k = head_Skips buf i 0 v rest (omega arith) at (omega arith)
field_Skips buf i (int32 (pos n)) rest h at k =
    head_Skips buf i 0 n rest (omega arith) at (omega arith)
field_Skips buf i (int32 (negsuc n)) rest h at k =
    head_Skips buf i 1 n rest (omega arith) at (omega arith)
field_Skips buf i (bytes bs) rest h at k =
    string_Skips buf i 2 bs rest (omega arith) (omega arith) h at
      (omega (arith, length-append (head_bytes 2 (length bs)) bs))
field_Skips buf i (string bs) rest h at k =
    string_Skips buf i 3 bs rest (omega arith) (omega arith) h at
      (omega (arith, length-append (head_bytes 3 (length bs)) bs))
field_Skips buf i (half v) rest h at k = half_Skips buf i _ at (omega arith)
