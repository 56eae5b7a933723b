-- ===== src/Report/Examples.antt =====
-- A report of two entries, sent and found.
use iot_yk.Cbor.Encoding.{head_bytes}
use iot_yk.Tlv.RoundTrip.{entries_bytes}
use iot_yk.Base.{ℕ, ◌≡◌, refl, true, false, some, List, [], ◌∷◌, length, replicate, arith}
use iot_yk.Base.Bytes.{done}
use iot_yk.Packet.{Packet, zeroed, set_header}
use iot_yk.Packet.Read.{parse}
use iot_yk.Tlv.{builder_init}
use iot_yk.Tlv.Find.{find}
use iot_yk.Tlv.Build.{uint8, uint16, field_bytes}
use iot_yk.Tlv.Built.{add_fields}
use iot_yk.Tlv.RoundTrip.{Entries, field_of, Finds}
use iot_yk.Report.{Memory, report}
use iot_yk.Report.Header.{set_header-IsMessage}
use iot_yk.Report.Found.{delivered, find-parse-report}

abbrev stack : Memory
stack = record {
  rx_buf = [];
  tlv_buf = replicate 64 0;
  raw = replicate 128 0;
  packet_room = true;
  payload_room = true;
}

abbrev message : Packet
message = set_header zeroed 7 9 (some (76 ∷ [])) (some (77 ∷ [])) 1 1 5 1 false

abbrev two_fields : Entries
two_fields = (3, uint8 1) ∷ (4, uint16 700) ∷ []

find-parse-report_example :
    (sent rx' : List ℕ) × (report stack 128 message
        (add_fields (builder_init (replicate 64 0) 64) two_fields)
      ≡ done sent)
    × (length sent ≡ 57)
    × (parse (replicate 512 0) sent (length sent) zeroed ≡ done (true, delivered message 8, rx'))
    × ((type : ℕ) → Finds type (field_of two_fields type) (find 8 rx' 8 type))
unfolding entries_bytes field_bytes head_bytes
find-parse-report_example =
    find-parse-report stack 128 message zeroed (replicate 64 0) 64 8 two_fields (replicate 512 0)
      (set_header-IsMessage 7 9 (76 ∷ []) (77 ∷ []) 1 1 5 1 false (omega arith) (omega arith))
      (omega arith, omega arith, (omega arith, omega arith, tt)) refl refl refl (omega arith)
      (omega arith) (omega arith) (omega arith) (omega arith) refl
