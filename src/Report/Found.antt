-- ===== src/Report/Found.antt =====
-- A report from a sender to a receiver: built, sent, parsed, and looked up by key.
use iot_yk.Base.{if_false, if_true}
use iot_yk.Report.{report}
use iot_yk.Base.{Bool-cases, inl, inr}
use iot_yk.Base.{false}
use iot_yk.Base.{[]}
use mathlib.Core.List.{append-nil}
use iot_yk.Packet.{set_lengths}
use mathlib.Core.List.{append_assoc}
use iot_yk.Base.{ℕ, ◌+◌, ◌≤◌, ◌<◌, ◌≡◌, ap, ◌∙◌, true, List, ◌∷◌, ◌++◌, length, drop, ◌==◌, arith}
use iot_yk.Base.Bytes.{done}
use iot_yk.Packet.{Packet, rx_static}
use iot_yk.Packet.Layout.{sent_header}
use iot_yk.Packet.Read.{parse}
use iot_yk.Packet.RoundTrip.{length-wire, parse-wire, wire}
use iot_yk.Tlv.{Builder, builder_init}
use iot_yk.Tlv.Find.{find}
use iot_yk.Tlv.Build.{IsBuilder, written}
use iot_yk.Tlv.RoundTrip.{Entries, AreEntries, entries_bytes, field_of, Finds}
use iot_yk.Tlv.Built.{
  add_fields, add_fields-Holds, init_written, init_len, builder_init-IsBuilder, find_entries,
  length-entries_bytes,
}
use iot_yk.Report.{Memory, emit}
use iot_yk.Report.Heard.{
  IsMessage, map_bytes, loaded, emit_lem, emit_bare, length-map_bytes, IsSendable-loaded,
}

-- The packet as a receiver holds it: its payload of `len` bytes lies in the static buffer.
abbrev pub delivered : Packet → ℕ → Packet
delivered pkt len = record pkt {
  header = sent_header pkt.header len;
  payload = rx_static;
  payload_len = len;
}

-- A builder that holds the entries of a map.
record Filled (buf : List ℕ) (size : ℕ) (fs : Entries) (b : Builder) : Type 0 where
  pub valid : IsBuilder b
  pub short : b.len < b.cap
  pub same_cap : b.cap ≡ size
  pub holds : written b ≡ 0xbf ∷ entries_bytes fs
  pub len_is : b.len ≡ 1 + length (entries_bytes fs)

add_fields-Filled :
    (buf : List ℕ) (size : ℕ) (fs : Entries)
    → AreEntries fs
    → 1 + length (entries_bytes fs) < size
    → size ≤ length buf
    → size ≤ 512
    → Filled buf size fs (add_fields (builder_init buf size) fs)
add_fields-Filled buf size fs e room fits small =
    let b0 = builder_init buf size in
    let start = init_len buf size in
    let h =
      add_fields-Holds b0 fs (builder_init-IsBuilder buf size (omega arith) fits (omega arith)) e
        (omega (arith, start)) in
    record {
      valid = h.valid;
      short = omega (arith, start, h.len_adds, h.same_cap);
      same_cap = h.same_cap ∙ start.1;
      holds = h.adds ∙ ap (◌++ entries_bytes fs) (init_written buf size (omega arith));
      len_is = omega (arith, start, h.len_adds);
    }

parse-loaded :
    (rx_buf rx : List ℕ) (pkt out : Packet) (body : List ℕ) (len : ℕ)
    → IsMessage pkt
    → length body ≡ len
    → length body ≤ 512
    → 0 < length body
    → length rx ≡ 512
    → parse rx (wire (loaded pkt body) body) (length (wire (loaded pkt body) body)) out
      ≡ done (true, delivered pkt len, body ++ drop len rx)
unfolding loaded set_lengths
parse-loaded rx_buf rx pkt out body len m el small some_bytes e =
    let v = IsSendable-loaded rx_buf pkt body m small some_bytes in
    let p = rw (append-nil (wire (loaded pkt body) body)) at (parse-wire v rx out [] e) in
    let full : (length body == 0) ≡ false = ground arith in
    rw (← el) (rw (length-wire v) (p ∙ rw full))

length-loaded :
    (rx_buf : List ℕ) (pkt : Packet) (body : List ℕ) (len : ℕ)
    → IsMessage pkt
    → length body ≡ len
    → length body ≤ 512
    → 0 < length body
    → length (wire (loaded pkt body) body) ≡ 49 + len
unfolding loaded set_lengths
length-loaded rx_buf pkt body len m el small some_bytes =
    length-wire (IsSendable-loaded rx_buf pkt body m small some_bytes) ∙ rw el

module _ (mem : Memory) (raw_size : ℕ) (pkt : Packet) (b : Builder) where
  report-emit : mem.packet_room ≡ true → report mem raw_size pkt b ≡ emit mem raw_size pkt b
  unfolding report
  report-emit e = if_true _ _ mem.packet_room e

  report-none : mem.packet_room ≡ false → report mem raw_size pkt b ≡ done []
  unfolding report
  report-none e = if_false _ _ mem.packet_room e

-- A list of entries whose keys and numbers fit their C types and whose strings and byte strings have
-- at most 255 bytes each, and a packet as `ykp_packet_alloc` and `ykp_packet_set_header` leave it. Where the heap
-- has room, the buffer of the map has at most 512 bytes, with room for the entries and the break, and
-- the buffer of the packet has 49 bytes more: a sender that builds a map of the entries and sends it
-- in the packet does not fault. The receiver parses the bytes sent; it gets the
-- packet's header and tag, and `ykp_tlv_find`, run for as many rounds as the payload has bytes,
-- ends without a fault for every key: it finds the first entry under the key, and no entry that is
-- not there.
pub find-parse-report :
    (mem : Memory) (raw_size : ℕ) (pkt out : Packet) (buf : List ℕ) (size len : ℕ) (fs : Entries)
    (rx : List ℕ)
    → IsMessage pkt
    → AreEntries fs
    → 2 + length (entries_bytes fs) ≡ len
    → mem.packet_room ≡ true
    → mem.payload_room ≡ true
    → len ≤ size
    → size ≤ length buf
    → size ≤ 512
    → 49 + size ≤ raw_size
    → raw_size ≤ length mem.raw
    → length rx ≡ 512
    → (sent : List ℕ) × (rx' : List ℕ) × (report mem raw_size pkt
          (add_fields (builder_init buf size) fs)
        ≡ done sent)
      × (length sent ≡ 49 + len)
      × (parse rx sent (length sent) out ≡ done (true, delivered pkt len, rx'))
      × ((type : ℕ) → Finds type (field_of fs type) (find len rx' len type))
find-parse-report mem raw_size pkt out buf size len fs rx m e l_is place room fill fits small k l
      er =
    let b = add_fields (builder_init buf size) fs in
    let h = add_fields-Filled buf size fs e (omega (arith, l_is)) fits small in
    let body = map_bytes b in
    let total = length-map_bytes b h.valid in
    let body_len : length body ≡ len = omega (arith, total, h.len_is, l_is) in
    let rx' = body ++ drop (len) rx in
    let sends =
      emit_lem mem raw_size pkt b m h.valid h.short (omega (arith, h.same_cap)) l
        (omega (arith, h.same_cap)) room in
    let sent_len =
      length-loaded mem.rx_buf pkt body (len) m body_len (omega (arith, body_len))
        (omega (arith, body_len)) in
    let parses =
      parse-loaded mem.rx_buf rx pkt out body (len) m body_len (omega (arith, body_len))
        (omega (arith, body_len)) er in
    (
      wire (loaded pkt body) body,
      rx',
      report-emit mem raw_size pkt b place ∙ sends,
      sent_len,
      parses,
      λ type.
          find_entries len len type rx' fs (drop (len) rx) e
            (append_assoc (written b) (0xff ∷ []) (drop (len) rx) ∙ rw h.holds)
            (omega (arith, l_is)) (omega arith) (omega (arith, l_is, length-entries_bytes fs e)),
    )

-- A sender's buffers, as its declarations size them.
pub record IsMemory (tlv_size raw_size : ℕ) (mem : Memory) : Type 0 where
  pub tlv_len : length mem.tlv_buf ≡ tlv_size
  pub raw_len : length mem.raw ≡ raw_size

-- A sender does not fault, with and without room on the heap.
pub report-total :
    (mem : Memory) (raw_size : ℕ) (pkt : Packet) (size : ℕ) (fs : Entries)
    → IsMessage pkt
    → AreEntries fs
    → IsMemory size raw_size mem
    → 1 + length (entries_bytes fs) < size
    → size ≤ 512
    → 49 + size ≤ raw_size
    → (raw : List ℕ) × (report mem raw_size pkt (add_fields (builder_init mem.tlv_buf size) fs)
        ≡ done raw)
report-total mem raw_size pkt size fs m e w fill small k =
    let b = add_fields (builder_init mem.tlv_buf size) fs in
    let h = add_fields-Filled mem.tlv_buf size fs e fill (omega (arith, w.tlv_len)) small in
    let fits : raw_size ≤ length mem.raw = omega (arith, w.raw_len) in
    let space : 49 + b.cap ≤ raw_size = omega (arith, h.same_cap) in
    elim (Bool-cases mem.packet_room) [
      | inr none_left ↦ ([], report-none mem raw_size pkt b none_left)
      | inl place ↦ elim (Bool-cases mem.payload_room) [
        | inl room ↦ (
          _,
          report-emit mem raw_size pkt b place
              ∙ emit_lem mem raw_size pkt b m h.valid h.short space fits (omega (arith, h.same_cap))
                  room,
        )
        | inr full ↦ (
          _,
          report-emit mem raw_size pkt b place
              ∙ emit_bare mem raw_size pkt b m h.valid h.short space fits full,
        )
      ]
    ]
