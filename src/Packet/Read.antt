-- ===== src/Packet/Read.antt =====
-- `ykp_packet_validate_header` and `ykp_packet_parse` of esp32-firmware/main/ykp_core/ykp_packet.c.
use iot_yk.Base.{ℕ, ◌+◌, Bool, true, false, not, ◌&&◌, ◌||◌, List, ltb, ◌==◌, if◌then◌else◌}
use iot_yk.Base.Bytes.{Run, done, ◌>>=◌, next, split_at, overwrite, u16}
use iot_yk.Wire.{read_u16_be, read_u32_be}
use iot_yk.Packet.{
  Header, Packet, null, rx_static, magic_0, magic_1, version_5, header_size, auth_tag_size,
  min_packet, device_id_len, static_payload_buf,
}

unfoldable pub validate_header : List ℕ → ℕ → Run Bool
validate_header raw raw_len =
    let look = do
      (m0, p) ← next raw
      (m1, p) ← next p
      (ver, p) ← next p
      done (not (not (m0 == magic_0) || not (m1 == magic_1)) && ver == version_5)
    in if ltb raw_len min_packet then done false else look

-- The fields of a header, and the bytes behind it.
unfoldable pub read_header : List ℕ → Run (Header × List ℕ)
read_header p = do
  (m0, p) ← next p
  (m1, p) ← next p
  (ver, p) ← next p
  (flags, p) ← next p
  (packet_id, p) ← read_u32_be p
  (session_id, p) ← read_u32_be p
  (source_id, p) ← split_at device_id_len p
  (dest_id, p) ← split_at device_id_len p
  (route_type, p) ← next p
  (service_id, p) ← next p
  (action_id, p) ← next p
  (payload_len, p) ← read_u16_be p
  done (
    record {
      magic = (m0, m1);
      version = ver;
      flags = flags;
      packet_id = packet_id;
      session_id = session_id;
      source_id = source_id;
      dest_id = dest_id;
      route_type = route_type;
      service_id = service_id;
      action_id = action_id;
      payload_len = payload_len;
    },
    p,
  )

-- The tag, behind the payload.
unfoldable pub read_tag : Packet → List ℕ → List ℕ → Run (Bool × Packet × List ℕ)
read_tag pkt rx_buf p = do
  (tag, p) ← split_at auth_tag_size p
  done (true, record pkt { auth_tag = tag }, rx_buf)

-- The payload goes to the static buffer; a larger one is refused.
unfoldable pub read_body : List ℕ → Packet → ℕ → List ℕ → Run (Bool × Packet × List ℕ)
unfolding read_tag
read_body rx_buf pkt len p =
    let copy = do
      (body, p) ← split_at len p
      rx_buf' ← overwrite body rx_buf
      read_tag (record pkt { payload = rx_static; payload_len = len }) rx_buf' p
    in if ltb 0 len
      then (if ltb static_payload_buf len then done (false, pkt, rx_buf) else copy)
      else read_tag (record pkt { payload = null; payload_len = len }) rx_buf p

-- The answer, the packet that `pkt_out` points to, and the static receive buffer.
unfoldable pub parse : List ℕ → List ℕ → ℕ → Packet → Run (Bool × Packet × List ℕ)
parse rx_buf raw raw_len pkt_out = validate_header raw raw_len >>= λ valid.
    if not valid
    then done (false, pkt_out, rx_buf)
    else read_header raw >>= λ (h, p).
        let pkt = record pkt_out { header = h } in
        if ltb raw_len (u16 (header_size + h.payload_len + auth_tag_size))
        then done (false, pkt, rx_buf)
        else read_body rx_buf pkt h.payload_len p
