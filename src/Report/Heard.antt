-- ===== src/Report/Heard.antt =====
-- What a receiver makes of a report: the packet is parsed and every field is found in it.
use iot_yk.Base.{Bool}
use iot_yk.Report.{transmit}
use mathlib.Core.List.{append_assoc}
use iot_yk.Base.{
  ℕ, suc, ◌+◌, ◌≤◌, ◌<◌, ◌≡◌, refl, sym, ◌∙◌, true, false, some, List, [], ◌∷◌, ◌++◌, length,
  length-append, length-take, set, drop, arith, ◌==◌,
}
use iot_yk.Base.Bytes.{done, split_at-append, take-append, take_all}
use iot_yk.Packet.{Packet, null, heap, set_lengths, set_payload, payload_bytes, free_payload}
use iot_yk.Packet.Layout.{IsHeader}
use iot_yk.Packet.Write.{body_bytes}
use iot_yk.Packet.RoundTrip.{IsSendable, wire, length-wire, serialise-wire}
use iot_yk.Tlv.{Builder, builder_len}
use iot_yk.Tlv.Build.{IsBuilder, written}
use iot_yk.Tlv.Built.{closed, closed_len}
use iot_yk.Report.{Memory, emit}

-- A packet as `ykp_packet_alloc` and `ykp_packet_set_header` leave it.
pub record IsMessage (pkt : Packet) : Type 0 where
  pub fields : IsHeader pkt.header
  pub empty : pkt.payload ≡ null
  pub no_len : pkt.payload_len ≡ 0
  pub tag_len : length pkt.auth_tag ≡ 16

-- The payload: a map with its break.
abbrev pub map_bytes : Builder → List ℕ
map_bytes b = written b ++ 0xff ∷ []

-- The packet with its payload.
unfoldable pub loaded : Packet → List ℕ → Packet
loaded pkt body = set_lengths pkt (heap body) (length body)

pub length-map_bytes : (b : Builder) → IsBuilder b → length (map_bytes b) ≡ b.len + 1
length-map_bytes b v =
    omega (arith, length-append (written b) (0xff ∷ []), length-take b.len b.buf, v.cursor, v.room)

set_payload-some :
    (room : Bool) (pkt : Packet) (len : ℕ) (body behind bytes : List ℕ)
    → room ≡ true
    → pkt.payload ≡ null
    → length body ≡ suc len
    → bytes ≡ body ++ behind
    → set_payload room pkt (some bytes) (suc len) ≡ done (loaded pkt body)
unfolding set_payload loaded
set_payload-some room pkt len body behind bytes has e l s =
    let full : (suc len == 0) ≡ false = ground arith in
    rw (e, s, has, split_at-append (suc len) body behind l) (rw (full, l))

pub IsSendable-loaded :
    (rx_buf : List ℕ) (pkt : Packet) (body : List ℕ)
    → IsMessage pkt
    → length body ≤ 512
    → 0 < length body
    → IsSendable rx_buf (loaded pkt body) body
unfolding loaded set_lengths body_bytes payload_bytes
IsSendable-loaded rx_buf pkt body m h p = record {
  fields = record {
    packet_id_fits = m.fields.packet_id_fits;
    session_id_fits = m.fields.session_id_fits;
    source_id_len = m.fields.source_id_len;
    dest_id_len = m.fields.dest_id_len;
  };
  carries = ground (arith, take_all (length body) body refl);
  body_len = refl;
  tag_len = m.tag_len;
  fits = h;
}

set_payload-bare :
    (room : Bool) (pkt : Packet) (len : ℕ) (bytes : List ℕ)
    → room ≡ false
    → pkt.payload ≡ null
    → set_payload room pkt (some bytes) (suc len) ≡ done (record pkt { payload = null })
unfolding set_payload
set_payload-bare room pkt len bytes has e =
    let full : (suc len == 0) ≡ false = ground arith in rw (e, has) (rw full)

transmit_lem :
    (mem : Memory) (raw_size : ℕ) (pkt freed : Packet) (body : List ℕ)
    → IsSendable mem.rx_buf pkt body
    → free_payload pkt ≡ done freed
    → 49 + length body ≤ raw_size
    → raw_size ≤ length mem.raw
    → transmit mem raw_size pkt ≡ done (wire pkt body)
unfolding transmit
transmit_lem mem raw_size pkt freed body v f h k =
    rw (serialise-wire v mem.raw raw_size (omega (arith, v.body_len)) k, f)
      (rw (← length-wire v)
        (rw (take-append (wire pkt body) (drop (length (wire pkt body)) mem.raw))))

free_payload-loaded :
    (pkt : Packet) (body : List ℕ)
    → free_payload (loaded pkt body) ≡ done (set_lengths pkt null (length body))
unfolding free_payload loaded set_lengths
free_payload-loaded pkt body = refl

free_payload-null :
    (pkt : Packet) → pkt.payload ≡ null → free_payload pkt ≡ done (record pkt { payload = null })
unfolding free_payload
free_payload-null pkt e = rw e

IsSendable-bare :
    (rx_buf : List ℕ) (pkt : Packet)
    → IsMessage pkt
    → IsSendable rx_buf (record pkt { payload = null }) []
unfolding body_bytes
IsSendable-bare rx_buf pkt m = record {
  fields = m.fields;
  carries = ground arith;
  body_len = sym m.no_len;
  tag_len = m.tag_len;
  fits = omega (arith, m.no_len);
}

module _ (mem : Memory) (raw_size : ℕ) (pkt : Packet) (b : Builder) (m : IsMessage pkt)
    (v : IsBuilder b) (short : b.len < b.cap) (k : 49 + b.cap ≤ raw_size)
    (l : raw_size ≤ length mem.raw) where
  -- The heap has no room for the payload: the packet is sent without one.
  pub emit_bare :
      mem.payload_room ≡ false
      → emit mem raw_size pkt b ≡ done (wire (record pkt { payload = null }) [])
  unfolding emit
  emit_bare none_left =
      let len : (builder_len b).0 ≡ suc b.len = omega (arith, closed_len b v short) in
      rw len (
        rw (set_payload-bare mem.payload_room pkt b.len (builder_len b).1.buf none_left m.empty) (
          transmit_lem mem raw_size (record pkt { payload = null }) _ []
            (IsSendable-bare mem.rx_buf pkt m) (free_payload-null _ refl) (omega (arith, v.cursor))
            l))

  -- The bytes that leave: a packet with the closed map.
  pub emit_lem :
      b.cap ≤ 512
      → mem.payload_room ≡ true
      → emit mem raw_size pkt b ≡ done (wire (loaded pkt (map_bytes b)) (map_bytes b))
  unfolding emit
  emit_lem small room =
      let body = map_bytes b in
      let size = length-map_bytes b v in
      let sendable =
        IsSendable-loaded mem.rx_buf pkt body m (omega (arith, size)) (omega (arith, size)) in
      let rest = drop (suc b.len) (set b.buf b.len 0xff) in
      let filled = closed b v short ∙ sym (append_assoc (written b) (0xff ∷ []) rest) in
      let len : (builder_len b).0 ≡ suc b.len = omega (arith, closed_len b v short) in
      rw len (
        rw
          (set_payload-some mem.payload_room pkt b.len body rest _ room m.empty
            (omega (arith, size)) filled)
          (transmit_lem mem raw_size (loaded pkt body) _ body sendable
            (free_payload-loaded pkt body) (omega (arith, size)) l))
