-- ===== src/Tlv/Read.antt =====
-- The readers of a found value, `ykp_tlv_read_*` of esp32-firmware/main/ykp_core/ykp_packet.c. They
-- read the memory at the value, whatever length the entry has; the answer is `none` for false.
use iot_yk.Base.{
  ℕ, zero, suc, ◌-◌, ◌*◌, ◌%◌, ◌^◌, bit_and, bit_or, Option, none, some, List, ltb, ◌==◌,
  if◌then◌else◌,
}
use iot_yk.Base.Bytes.{Run, done, ◌>>=◌, next}
use iot_yk.Base.Int.{ℤ, signed32}
use iot_yk.Wire.{read_u16_be, read_u32_be}
use iot_yk.Tlv.Find.{Tlv}

unfoldable pub read_uint8 : Tlv → Run (Option ℕ)
read_uint8 tlv =
    if ltb tlv.length 1
    then done none
    else (next tlv.value >>= λ (val_hdr, behind).
        let info = bit_and val_hdr 0x1f in
        if bit_and val_hdr 0xe0 == 0x00
        then (if ltb info 24
            then done (some info)
            else if info == 0x18
            then (next behind >>= λ (b, end). done (some b))
            else done none)
        else done none)

unfoldable pub read_uint16 : Tlv → Run (Option ℕ)
read_uint16 tlv =
    if ltb tlv.length 1
    then done none
    else (next tlv.value >>= λ (val_hdr, behind).
        let info = bit_and val_hdr 0x1f in
        if bit_and val_hdr 0xe0 == 0x00
        then (if ltb info 24
            then done (some info)
            else if info == 0x18
            then (next behind >>= λ (b, end). done (some b))
            else if info == 0x19
            then (read_u16_be behind >>= λ (v, end). done (some v))
            else done none)
        else done none)

unfoldable pub read_uint32 : Tlv → Run (Option ℕ)
read_uint32 tlv =
    if ltb tlv.length 1
    then done none
    else (next tlv.value >>= λ (val_hdr, behind).
        let info = bit_and val_hdr 0x1f in
        if bit_and val_hdr 0xe0 == 0x00
        then (if ltb info 24
            then done (some info)
            else if info == 0x18
            then (next behind >>= λ (b, end). done (some b))
            else if info == 0x19
            then (read_u16_be behind >>= λ (v, end). done (some v))
            else if info == 0x1a
            then (read_u32_be behind >>= λ (v, end). done (some v))
            else done none)
        else done none)

-- The argument of a negative number; 0 where the head byte has another form.
unfoldable pub read_negative : ℕ → List ℕ → Run ℕ
read_negative info behind =
    if ltb info 24
    then done info
    else if info == 0x18
    then (next behind >>= λ (b, end). done b)
    else if info == 0x19
    then (read_u16_be behind >>= λ (v, end). done v)
    else if info == 0x1a
    then (read_u32_be behind >>= λ (v, end). done v)
    else done 0

unfoldable pub read_int32 : Tlv → Run (Option ℤ)
read_int32 tlv =
    if ltb tlv.length 1
    then done none
    else (next tlv.value >>= λ (val_hdr, behind).
        let major = bit_and val_hdr 0xe0 in
        let info = bit_and val_hdr 0x1f in
        if major == 0x00
        then (read_uint32 tlv >>= λ uval.
            done (elim uval [ none ↦ none | some v ↦ some (signed32 v) ]))
        else if major == 0x20
        then (read_negative info behind >>= λ uv. done (some (signed32 (2 ^ 32 - 1 - uv))))
        else done none)

-- The eight bytes, most significant first.
unfoldable pub read_eight : ℕ → ℕ → List ℕ → Run ℕ
read_eight zero out p = done out
read_eight (suc count) out p =
    next p >>= λ (b, behind). read_eight count (bit_or (out * 2 ^ 8 % 2 ^ 64) b) behind

unfoldable pub read_uint64 : Tlv → Run (Option ℕ)
read_uint64 tlv =
    if ltb tlv.length 1
    then done none
    else (next tlv.value >>= λ (val_hdr, behind).
        let info = bit_and val_hdr 0x1f in
        if bit_and val_hdr 0xe0 == 0x00
        then (if ltb info 24
            then done (some info)
            else if info == 0x18
            then (next behind >>= λ (b, end). done (some b))
            else if info == 0x19
            then (read_u16_be behind >>= λ (v, end). done (some v))
            else if info == 0x1a
            then (read_u32_be behind >>= λ (v, end). done (some v))
            else if info == 0x1b
            then (read_eight 8 0 behind >>= λ v. done (some v))
            else done none)
        else done none)
