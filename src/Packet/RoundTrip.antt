-- ===== src/Packet/RoundTrip.antt =====
-- A packet that is serialised and parsed again comes out as it went in.
use mathlib.Core.List.{append_assoc}
use iot_yk.Base.{
  ℕ, ◌+◌, ◌≤◌, ◌≡◌, inl, inr, ◌∙◌, true, List, ◌++◌, ◌==◌, if◌then◌else◌, length, length-append,
  take, drop, arith, Bool-cases, ltb-false, lt→ltb, nil_of_length,
}
use iot_yk.Base.Bytes.{done, u16, split_at-append, take_all, overwrite-append, take-append}
use iot_yk.Packet.{Packet, null, rx_static}
use iot_yk.Packet.Write.{header_bytes, body_bytes, store, serialise}
use iot_yk.Packet.Read.{read_body, parse}
use iot_yk.Packet.Layout.{
  IsHeader, sent_header, read_header-header_bytes, length-header_bytes, validate-header_bytes,
}

-- A packet that can be sent: its fields fit, and its payload pointer leads to `body`.
pub record IsSendable (rx_buf : List ℕ) (pkt : Packet) (body : List ℕ) : Type 0 where
  pub fields : IsHeader pkt.header
  pub carries : body_bytes rx_buf pkt ≡ done body
  pub body_len : length body ≡ pkt.payload_len
  pub tag_len : length pkt.auth_tag ≡ 16
  pub fits : pkt.payload_len ≤ 512

-- The bytes of a packet on the wire.
pub wire : Packet → List ℕ → List ℕ
wire pkt body = header_bytes pkt.header pkt.payload_len ++ (body ++ pkt.auth_tag)

-- The packet as the receiver holds it.
abbrev pub received : Packet → Packet
received pkt = record pkt {
  header = sent_header pkt.header pkt.payload_len;
  payload = if pkt.payload_len == 0 then null else rx_static;
}

module _ {rx_buf : List ℕ} {pkt : Packet} {body : List ℕ} (v : IsSendable rx_buf pkt body) where
  pub length-wire : length (wire pkt body) ≡ 49 + pkt.payload_len
  unfolding wire
  length-wire =
      simp (length-append, length-header_bytes pkt.header pkt.payload_len v.fields)
        (omega (arith, v.body_len, v.tag_len))

  store-wire :
      (total : ℕ) (out : List ℕ)
      → 49 + pkt.payload_len ≤ length out
      → store rx_buf pkt total out ≡ done (total, wire pkt body ++ drop (49 + pkt.payload_len) out)
  unfolding store wire
  store-wire total out h =
      rw (v.carries, take_all 16 pkt.auth_tag v.tag_len)
        (rw (overwrite-append (wire pkt body) out (rw length-wire h), length-wire))

  pub serialise-wire :
      (out : List ℕ) (out_size : ℕ)
      → 49 + pkt.payload_len ≤ out_size
      → out_size ≤ length out
      → serialise rx_buf pkt out out_size
        ≡ done (49 + pkt.payload_len, wire pkt body ++ drop (49 + pkt.payload_len) out)
  unfolding serialise
  serialise-wire out out_size h k =
      let total : u16 (33 + pkt.payload_len + 16) ≡ 49 + pkt.payload_len = omega (arith, v.fits) in
      rw (total, ltb-false out_size (49 + pkt.payload_len) h)
        (store-wire (49 + pkt.payload_len) out (omega arith))

  -- Reading the payload and the tag off the wire.
  read_body-wire :
      (rx : List ℕ) (p : Packet) (rest : List ℕ)
      → length rx ≡ 512
      → read_body rx p pkt.payload_len (body ++ (pkt.auth_tag ++ rest))
        ≡ done (
          true,
          record p {
            payload = if pkt.payload_len == 0 then null else rx_static;
            payload_len = pkt.payload_len;
            auth_tag = pkt.auth_tag;
          },
          body ++ drop pkt.payload_len rx,
        )
  unfolding read_body
  read_body-wire rx p rest e = elim (Bool-cases (pkt.payload_len == 0)) [
    | inl empty ↦
        let none_left : pkt.payload_len ≡ 0 = ground arith in
        rw (none_left, nil_of_length body (v.body_len ∙ none_left))
          (rw (split_at-append 16 pkt.auth_tag rest v.tag_len))
    | inr full ↦
        rw
          (
            lt→ltb 0 pkt.payload_len (ground arith),
            ltb-false 512 pkt.payload_len v.fits,
            split_at-append pkt.payload_len body (pkt.auth_tag ++ rest) v.body_len,
          )
          (rw (overwrite-append body rx (omega (arith, v.body_len, v.fits)), v.body_len)
            (rw (split_at-append 16 pkt.auth_tag rest v.tag_len, full)))
  ]

  -- The whole packet off the wire, whatever stands behind it.
  pub parse-wire :
      (rx : List ℕ) (pkt_out : Packet) (rest : List ℕ)
      → length rx ≡ 512
      → parse rx (wire pkt body ++ rest) (49 + pkt.payload_len) pkt_out
        ≡ done (true, received pkt, body ++ drop pkt.payload_len rx)
  unfolding parse wire
  parse-wire rx pkt_out rest e =
      let total : u16 (33 + pkt.payload_len + 16) ≡ 49 + pkt.payload_len = omega (arith, v.fits) in
      let short = ltb-false (49 + pkt.payload_len) (49 + pkt.payload_len) (omega arith) in
      rw (append_assoc, append_assoc)
        (rw
          (validate-header_bytes pkt.header pkt.payload_len _ (49 + pkt.payload_len) (omega arith))
          (rw
            (read_header-header_bytes pkt.header pkt.payload_len _ v.fields (omega (arith, v.fits)))
            (rw (total, short) (read_body-wire rx _ rest e))))

-- A packet whose fields fit and whose payload has at most 512 bytes is serialised into any buffer
-- with room for its 49 bytes and its payload, and `ykp_packet_parse` reads it back from those
-- bytes: every field, the tag and the payload, which lies in the static buffer; magic, version and
-- the header's length come out as the wire has them.
pub parse-serialise :
    (rx_buf rx : List ℕ) (pkt pkt_out : Packet) (body out : List ℕ) (out_size : ℕ)
    → IsSendable rx_buf pkt body
    → 49 + pkt.payload_len ≤ out_size
    → out_size ≤ length out
    → length rx ≡ 512
    → (sent : List ℕ) × (rx' : List ℕ) × (serialise rx_buf pkt out out_size
        ≡ done (49 + pkt.payload_len, sent))
      × (parse rx sent (49 + pkt.payload_len) pkt_out ≡ done (true, received pkt, rx'))
      × (take pkt.payload_len rx' ≡ body)
parse-serialise rx_buf rx pkt pkt_out body out out_size v h k e = (
  wire pkt body ++ drop (49 + pkt.payload_len) out,
  body ++ drop pkt.payload_len rx,
  serialise-wire v out out_size h k,
  parse-wire v rx pkt_out _ e,
  rw (← v.body_len) (take-append body _),
)
