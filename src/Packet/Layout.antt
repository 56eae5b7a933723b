-- ===== src/Packet/Layout.antt =====
-- The binary layout of a packet: what is written is read back, part by part.
use mathlib.Core.List.{append_assoc}
use iot_yk.Base.{ℕ, ◌^◌, ◌<◌, ◌≤◌, ◌≡◌, true, List, ◌++◌, length, length-append, arith}
use iot_yk.Base.Bytes.{done, split_at-append, take_all}
use iot_yk.Wire.{write_u16_be, write_u32_be, read-write_u16_be, read-write_u32_be}
use iot_yk.Packet.{Header, magic_0, magic_1, version_5, device_id_len}
use iot_yk.Packet.Write.{header_bytes}
use iot_yk.Packet.Read.{read_header, validate_header}

-- Every field of the header fits its bytes.
pub record IsHeader (h : Header) : Type 0 where
  pub packet_id_fits : h.packet_id < 2 ^ 32
  pub session_id_fits : h.session_id < 2 ^ 32
  pub source_id_len : length h.source_id ≡ device_id_len
  pub dest_id_len : length h.dest_id ≡ device_id_len

-- The header as it arrives.
abbrev pub sent_header : Header → ℕ → Header
sent_header h payload_len = record h {
  magic = (magic_0, magic_1);
  version = version_5;
  payload_len = payload_len;
}

pub read_header-header_bytes :
    (h : Header) (len : ℕ) (rest : List ℕ)
    → IsHeader h
    → len < 2 ^ 16
    → read_header (header_bytes h len ++ rest) ≡ done (sent_header h len, rest)
unfolding read_header header_bytes
read_header-header_bytes h len rest v hl = simp (
  append_assoc,
  take_all 8 h.source_id v.source_id_len,
  take_all 8 h.dest_id v.dest_id_len,
  read-write_u32_be h.packet_id _ v.packet_id_fits,
  read-write_u32_be h.session_id _ v.session_id_fits,
  split_at-append 8 h.source_id _ v.source_id_len,
  split_at-append 8 h.dest_id _ v.dest_id_len,
  read-write_u16_be len rest hl,
)

pub length-header_bytes : (h : Header) (len : ℕ) → IsHeader h → length (header_bytes h len) ≡ 33
unfolding header_bytes write_u32_be write_u16_be
length-header_bytes h len v =
    simp (length-append, take_all 8 h.source_id v.source_id_len, take_all 8 h.dest_id v.dest_id_len)
      (omega arith)

-- What was written passes the check of magic and version.
pub validate-header_bytes :
    (h : Header) (len : ℕ) (rest : List ℕ) (raw_len : ℕ)
    → 49 ≤ raw_len
    → validate_header (header_bytes h len ++ rest) raw_len ≡ done true
unfolding validate_header header_bytes
validate-header_bytes h len rest raw_len k = ground arith
