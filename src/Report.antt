-- ===== src/Report.antt =====
-- How the firmware's senders end: the map is closed and becomes the payload of a packet, which is
-- serialised into a buffer on the stack; services/*.c, main.c and discovery/ykp_discovery.c.
pub mod Heard
pub mod Found
pub mod Header
pub mod Room
mod Examples
use iot_yk.Base.{[]}
use iot_yk.Base.{if◌then◌else◌}
use iot_yk.Base.{ℕ, Bool, some, List, take}
use iot_yk.Base.Bytes.{Run, done, ◌>>=◌}
use iot_yk.Packet.{Packet, set_payload, free_payload}
use iot_yk.Packet.Write.{serialise}
use iot_yk.Tlv.{Builder, builder_len}

-- The memory of a sender: the static receive buffer, the two buffers on its stack with whatever
-- they hold, and whether the heap has room for the packet and for the payload.
pub record Memory : Type 0 where
  pub rx_buf : List ℕ
  pub tlv_buf : List ℕ
  pub raw : List ℕ
  pub packet_room : Bool
  pub payload_room : Bool

-- The packet is serialised and freed: the bytes to send, none for a packet that is too large.
unfoldable pub transmit : Memory → ℕ → Packet → Run (List ℕ)
transmit mem raw_size pkt = serialise mem.rx_buf pkt mem.raw raw_size >>= λ (raw_len, raw).
    free_payload pkt >>= λ freed. done (take raw_len raw)

unfoldable pub emit : Memory → ℕ → Packet → Builder → Run (List ℕ)
emit mem raw_size pkt b =
    let (len, b') = builder_len b in
    set_payload mem.payload_room pkt (some b'.buf) len >>= λ pkt'. transmit mem raw_size pkt'

-- `ykp_packet_alloc` first, and nothing is sent where the heap has no room for the packet.
unfoldable pub report : Memory → ℕ → Packet → Builder → Run (List ℕ)
report mem raw_size pkt b = if mem.packet_room then emit mem raw_size pkt b else done []
