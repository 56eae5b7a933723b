-- ===== src/Tlv/Find.antt =====
-- `ykp_tlv_find` of esp32-firmware/main/ykp_core/ykp_packet.c. The input is the memory from `buf`
-- on, which may go on behind `buf_len`; a read behind that memory is a fault. `i` is a uint16_t.
use iot_yk.Base.{
  ℕ, zero, suc, ◌+◌, ◌-◌, ◌*◌, ◌^◌, bit_and, bit_or, Bool, true, false, ◌&&◌, ◌||◌, Option, none,
  some, List, ltb, ◌==◌, if◌then◌else◌, get_elem?, drop,
}
use iot_yk.Base.Bytes.{Run, done, fault, ◌>>=◌, u16}

-- `value` is the memory from the pointer on.
pub record Tlv : Type 0 where
  pub type_id : ℕ
  pub length : ℕ
  pub value : List ℕ

unfoldable pub byte_at : List ℕ → ℕ → Run ℕ
byte_at buf i = elim (get_elem? buf i) [ none ↦ fault | some b ↦ done b ]

-- `read_u16_be(&buf[i])`
unfoldable pub u16_at : List ℕ → ℕ → Run ℕ
unfolding byte_at
u16_at buf i = do b0 ← byte_at buf i; b1 ← byte_at buf (i + 1); done (bit_or (b0 * 2 ^ 8) b1)

-- The index behind an integer or float, whose head ended at `i`.
unfoldable pub skip_fixed : ℕ → ℕ → ℕ
skip_fixed info i =
    if info == 0x18
    then u16 (i + 1)
    else if info == 0x19
    then u16 (i + 2)
    else if info == 0x1a
    then u16 (i + 4)
    else if info == 0x1b
    then u16 (i + 8)
    else i

-- The index behind a string; `i += str_len` cuts to 16 bits.
unfoldable pub skip_string : List ℕ → ℕ → ℕ → Run ℕ
skip_string buf info i =
    if ltb info 24
    then done (u16 (i + info))
    else if info == 0x18
    then (do str_len ← byte_at buf i; done (u16 (u16 (i + 1) + str_len)))
    else if info == 0x19
    then (do str_len ← u16_at buf i; done (u16 (u16 (i + 2) + str_len)))
    else done i

-- The index behind a float or simple value.
unfoldable pub skip_simple : ℕ → ℕ → ℕ
skip_simple info i =
    if info == 25
    then u16 (i + 2)
    else if info == 26
    then u16 (i + 4)
    else if info == 27
    then u16 (i + 8)
    else i

unfoldable pub skip_value : List ℕ → ℕ → ℕ → Run ℕ
unfolding skip_fixed skip_string skip_simple
skip_value buf val_hdr i =
    let major = bit_and val_hdr 0xe0 in
    let info = bit_and val_hdr 0x1f in
    if major == 0x00 || major == 0x20
    then done (if ltb info 24 then i else skip_fixed info i)
    else if major == 0x40 || major == 0x60
    then skip_string buf info i
    else done (if major == 0xe0 then skip_simple info i else i)

-- The loop's next step: an answer, where `none` is false, or another round from an index.
pub data Turn : Type 0 where
  answer : Option Tlv → Turn
  go_on : ℕ → Turn

-- The rest of a round, behind the key.
unfoldable pub turn_value : List ℕ → ℕ → ℕ → ℕ → Run Turn
turn_value buf type key val_start = do
  val_hdr ← byte_at buf val_start
  i ← skip_value buf val_hdr (u16 (val_start + 1))
  done (
      if key == type
      then answer (
          some (record {
            type_id = key;
            length = u16 (i + 2 ^ 16 - val_start);
            value = drop val_start buf;
          }))
      else go_on i)

-- A round of the loop at an index below `buf_len`.
unfoldable pub turn : List ℕ → ℕ → Bool → ℕ → Run Turn
turn buf type indefinite i = byte_at buf i >>= λ key_hdr.
    if indefinite && key_hdr == 0xff
    then done (answer none)
    else if ltb key_hdr 24
    then turn_value buf type key_hdr (u16 (i + 1))
    else if key_hdr == 0x18
    then (byte_at buf (u16 (i + 1)) >>= λ key. turn_value buf type key (u16 (u16 (i + 1) + 1)))
    else done (answer none)

-- `none` means that the fuel ran out before the loop ended.
unfoldable pub find_loop : ℕ → List ℕ → ℕ → ℕ → Bool → ℕ → Option (Run (Option Tlv))
find_loop zero buf buf_len type indefinite i = none
find_loop (suc fuel) buf buf_len type indefinite i =
    let rounds : Option (Run (Option Tlv)) = elim (turn buf type indefinite i) [
      | fault ↦ some fault
      | done (answer a) ↦ some (done a)
      | done (go_on i') ↦ find_loop fuel buf buf_len type indefinite i'
    ] in
    if ltb i buf_len then rounds else some (done none)

-- A definite map: `pairs` is read and never used.
unfoldable pub find_definite : ℕ → List ℕ → ℕ → ℕ → ℕ → Option (Run (Option Tlv))
find_definite fuel buf buf_len type header =
    if bit_and header 0xe0 == 0xa0
    then (if bit_and header 0x1f == 0x18
        then elim (byte_at buf 1) [
          | fault ↦ some fault
          | done pairs ↦ find_loop fuel buf buf_len type false 2
        ]
        else find_loop fuel buf buf_len type false 1)
    else some (done none)

unfoldable pub find : ℕ → List ℕ → ℕ → ℕ → Option (Run (Option Tlv))
unfolding find_definite
find fuel buf buf_len type =
    let look : Option (Run (Option Tlv)) = elim (byte_at buf 0) [
      | fault ↦ some fault
      | done header ↦
          if header == 0xbf
          then find_loop fuel buf buf_len type true 1
          else find_definite fuel buf buf_len type header
    ] in
    if ltb buf_len 2 then some (done none) else look
