-- ===== src/Report/Room.antt =====
-- How much room the entries of a report take, and what follows for a whole report.
use iot_yk.Tlv.RoundTrip.{uint_bytes-short}
use iot_yk.Base.{ℕ, ◌+◌, ◌≤◌, ◌≡◌, refl, true, List, [], ◌∷◌, length, length-append, arith}
use iot_yk.Base.Int.{pos, negsuc}
use iot_yk.Base.Bytes.{done}
use iot_yk.Cbor.Encoding.{head_bytes, uint_bytes}
use iot_yk.Wire.{write_u16_be, write_u32_be}
use iot_yk.Packet.{Packet}
use iot_yk.Packet.Read.{parse}
use iot_yk.Tlv.{builder_init}
use iot_yk.Tlv.Find.{find}
use iot_yk.Tlv.Build.{
  Field, uint8, uint16, uint32, uint64, int32, bytes, string, half, field_bytes, entry_bytes,
}
use iot_yk.Tlv.RoundTrip.{Entries, AreEntries, entries_bytes, field_of, Finds}
use iot_yk.Tlv.Built.{add_fields}
use iot_yk.Report.{Memory, report}
use iot_yk.Report.Heard.{IsMessage}
use iot_yk.Report.Found.{IsMemory, delivered, find-parse-report}

-- No field is wider: a head of nine bytes, and the bytes of a string.
unfoldable pub width : Field → ℕ
width (bytes bs) = 9 + length bs
width (string bs) = 9 + length bs
width _ = 9

-- With two bytes for each key.
unfoldable pub entries_width : Entries → ℕ
entries_width [] = 0
entries_width ((key, f) ∷ fs) = 2 + width f + entries_width fs

length-head_bytes : (major v : ℕ) → length (head_bytes major v) ≤ 9
unfolding head_bytes write_u16_be write_u32_be
length-head_bytes major v = ground arith

length-field_bytes : (f : Field) → length (field_bytes f) ≤ width f
unfolding field_bytes width write_u16_be
length-field_bytes (uint8 v) = length-head_bytes 0 v
length-field_bytes (uint16 v) = length-head_bytes 0 v
length-field_bytes (uint32 v) = length-head_bytes 0 v
length-field_bytes (uint64 v) = length-head_bytes 0 v
length-field_bytes (int32 (pos n)) = length-head_bytes 0 n
length-field_bytes (int32 (negsuc n)) = length-head_bytes 1 n
length-field_bytes (bytes bs) =
    omega (arith, length-append (head_bytes 2 (length bs)) bs, length-head_bytes 2 (length bs))
length-field_bytes (string bs) =
    omega (arith, length-append (head_bytes 3 (length bs)) bs, length-head_bytes 3 (length bs))
length-field_bytes (half v) = omega arith

length-entries_width : (fs : Entries) → AreEntries fs → length (entries_bytes fs) ≤ entries_width fs
unfolding entries_bytes entries_width
length-entries_width [] v = omega arith
length-entries_width ((key, f) ∷ fs) v = omega (
  arith,
  length-append (entry_bytes key f) (entries_bytes fs),
  length-append (uint_bytes key) (field_bytes f),
  uint_bytes-short key v.0,
  length-field_bytes f,
  length-entries_width fs v.2,
)

-- What the receiver makes of the bytes sent: the packet, and under each key the first entry.
pub record Delivers (fs : Entries) (pkt : Packet) (rx : List ℕ) (out : Packet) (sent : List ℕ)
    : Type 0 where
  pub len : ℕ
  pub rx' : List ℕ
  pub sent_len : length sent ≡ 49 + len
  pub parses : parse rx sent (length sent) out ≡ done (true, delivered pkt len, rx')
  pub finds : (type : ℕ) → Finds type (field_of fs type) (find len rx' len type)

pub report-Delivers :
    (mem : Memory) (raw_size size : ℕ) (pkt out : Packet) (fs : Entries) (rx : List ℕ)
    → IsMemory size raw_size mem
    → mem.packet_room ≡ true
    → mem.payload_room ≡ true
    → IsMessage pkt
    → AreEntries fs
    → 2 + entries_width fs ≤ size
    → size ≤ 512
    → 49 + size ≤ raw_size
    → length rx ≡ 512
    → (sent : List ℕ) × (report mem raw_size pkt (add_fields (builder_init mem.tlv_buf size) fs)
        ≡ done sent)
      × Delivers fs pkt rx out sent
report-Delivers mem raw_size size pkt out fs rx w place room m v fill small k e =
    let (sent, rx', made, sent_len, parses, finds) =
      find-parse-report mem raw_size pkt out mem.tlv_buf size (2 + length (entries_bytes fs)) fs rx
        m v refl place room (omega (arith, length-entries_width fs v)) (omega (arith, w.tlv_len))
        small k (omega (arith, w.raw_len)) e in
    (
      sent,
      made,
      record {
        len = 2 + length (entries_bytes fs);
        rx' = rx';
        sent_len = sent_len;
        parses = parses;
        finds = finds;
      },
    )
