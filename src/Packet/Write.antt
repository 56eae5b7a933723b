-- ===== src/Packet/Write.antt =====
-- `ykp_packet_serialise` of esp32-firmware/main/ykp_core/ykp_packet.c.
use iot_yk.Base.{ℕ, ◌+◌, not, ◌&&◌, List, [], ◌∷◌, ◌++◌, ltb, ◌==◌, if◌then◌else◌, take}
use iot_yk.Base.Bytes.{Run, done, ◌>>=◌, overwrite, u16}
use iot_yk.Wire.{write_u16_be, write_u32_be}
use iot_yk.Packet.{
  Header, Packet, magic_0, magic_1, version_5, header_size, auth_tag_size, device_id_len, is_null,
  payload_bytes,
}

-- The 33 bytes of a header. The magic and the version are constants; the length is the packet's.
unfoldable pub header_bytes : Header → ℕ → List ℕ
header_bytes h payload_len =
    magic_0
    ∷ magic_1
    ∷ version_5
    ∷ h.flags
    ∷ (write_u32_be h.packet_id
        ++ (write_u32_be h.session_id
            ++ (take device_id_len h.source_id
                ++ (take device_id_len h.dest_id
                    ++ (h.route_type ∷ h.service_id ∷ h.action_id ∷ write_u16_be payload_len)))))

-- The payload is copied if there is one and its length is not 0.
unfoldable pub body_bytes : List ℕ → Packet → Run (List ℕ)
unfolding is_null payload_bytes
body_bytes rx_buf pkt =
    if not (pkt.payload_len == 0) && not (is_null pkt.payload)
    then payload_bytes rx_buf pkt.payload pkt.payload_len
    else done []

-- The bytes go up from the start of the output buffer.
unfoldable pub store : List ℕ → Packet → ℕ → List ℕ → Run (ℕ × List ℕ)
store rx_buf pkt total out = do
  body ← body_bytes rx_buf pkt
  out' ←
      overwrite
        (header_bytes pkt.header pkt.payload_len ++ (body ++ take auth_tag_size pkt.auth_tag)) out
  done (total, out')

-- The length returned, 0 for a buffer that is too small, and the output buffer.
unfoldable pub serialise : List ℕ → Packet → List ℕ → ℕ → Run (ℕ × List ℕ)
unfolding store
serialise rx_buf pkt out out_size =
    let total = u16 (header_size + pkt.payload_len + auth_tag_size) in
    if ltb out_size total then done (0, out) else store rx_buf pkt total out
