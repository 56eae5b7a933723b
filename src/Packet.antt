-- ===== src/Packet.antt =====
-- esp32-firmware/main/ykp_core/ykp_packet.c and ykp_packet.h, without the TLV part: the packet
-- with its payload pointer, and the binary form of a packet.
-- A pointer that every caller passes as non-NULL is taken as what it points to. The static
-- receive buffer `s_rx_payload_buf` is passed in, and handed back where it is written.
pub mod Write
pub mod Read
pub mod Layout
pub mod RoundTrip
pub mod Ownership
mod Examples
use iot_yk.Base.{
  ℕ, ◌+◌, ◌*◌, ◌%◌, ◌^◌, bit_and, bit_or, Bool, true, false, not, ◌&&◌, ◌||◌, Option, none, some,
  List, [], ◌∷◌, ◌++◌, ltb, leb, ◌==◌, if◌then◌else◌, get_elem?, length, take, replicate,
}
use iot_yk.Base.Bytes.{Run, done, fault, ◌>>=◌, ◌>>◌, next, split_at, overwrite, u8, u16, strncpy}
use iot_yk.Wire.{write_u16_be, write_u32_be, read_u16_be, read_u32_be}

abbrev pub magic_0 : ℕ
magic_0 = 0x59

abbrev pub magic_1 : ℕ
magic_1 = 0x4b

abbrev pub version_5 : ℕ
version_5 = 0x05

abbrev pub header_size : ℕ
header_size = 33

abbrev pub auth_tag_size : ℕ
auth_tag_size = 16

abbrev pub min_packet : ℕ
min_packet = header_size + auth_tag_size

abbrev pub device_id_len : ℕ
device_id_len = 8

abbrev pub static_payload_buf : ℕ
static_payload_buf = 512

pub record Header : Type 0 where
  pub magic : ℕ × ℕ
  pub version : ℕ
  pub flags : ℕ
  pub packet_id : ℕ
  pub session_id : ℕ
  pub source_id : List ℕ
  pub dest_id : List ℕ
  pub route_type : ℕ
  pub service_id : ℕ
  pub action_id : ℕ
  pub payload_len : ℕ

-- Where `pkt->payload` points: nowhere, to bytes on the heap, or to the static receive buffer.
pub data Payload : Type 0 where
  null : Payload
  heap : List ℕ → Payload
  rx_static : Payload

pub record Packet : Type 0 where
  pub header : Header
  pub payload : Payload
  pub auth_tag : List ℕ
  pub payload_len : ℕ

-- `calloc(1, sizeof(ykp_packet_t))`, where the heap has room.
unfoldable pub zeroed : Packet
zeroed = record {
  header = record {
    magic = (0, 0);
    version = 0;
    flags = 0;
    packet_id = 0;
    session_id = 0;
    source_id = replicate device_id_len 0;
    dest_id = replicate device_id_len 0;
    route_type = 0;
    service_id = 0;
    action_id = 0;
    payload_len = 0;
  };
  payload = null;
  auth_tag = replicate auth_tag_size 0;
  payload_len = 0;
}

-- `free` of what the heap gave out, or of NULL; anything else is undefined.
unfoldable pub free : Payload → Run (Unit {0})
free null = done tt
free (heap bytes) = done tt
free rx_static = fault

unfoldable pub is_rx_static : Payload → Bool
is_rx_static rx_static = true
is_rx_static _ = false

unfoldable pub is_null : Payload → Bool
is_null null = true
is_null _ = false

-- `ykp_packet_free_payload`, and what `ykp_packet_free` does before it frees the packet itself.
unfoldable pub free_payload : Packet → Run Packet
unfolding free is_rx_static is_null
free_payload pkt = do
  if not (is_null pkt.payload) && not (is_rx_static pkt.payload) then free pkt.payload else done tt
  done (record pkt { payload = null })

unfoldable pub set_header :
    Packet → ℕ → ℕ → Option (List ℕ) → Option (List ℕ) → ℕ → ℕ → ℕ → ℕ → Bool → Packet
set_header pkt packet_id session_id source_id dest_id route_type service_id action_id qos
      encrypted =
    let flags = bit_and qos 0x03 in
    record pkt {
      header = record {
        magic = (magic_0, magic_1);
        version = version_5;
        flags = if encrypted then bit_or flags 0x04 else flags;
        packet_id = packet_id;
        session_id = session_id;
        source_id = id_field source_id;
        dest_id = id_field dest_id;
        route_type = u8 route_type;
        service_id = u8 service_id;
        action_id = action_id;
        payload_len = pkt.header.payload_len;
      };
    }
  where
    id_field : Option (List ℕ) → List ℕ
    id_field none = replicate device_id_len 0
    id_field (some str) = strncpy device_id_len str

unfoldable pub set_lengths : Packet → Payload → ℕ → Packet
set_lengths pkt payload len =
    let header = pkt.header in
    record pkt {
      payload = payload;
      payload_len = len;
      header = record header { payload_len = len };
    }

-- `room` is whether `malloc` finds memory. `none` is a NULL payload argument.
unfoldable pub set_payload : Bool → Packet → Option (List ℕ) → ℕ → Run Packet
unfolding free is_null set_lengths
set_payload room pkt none len = do
  if not (is_null pkt.payload) then free pkt.payload else done tt
  done (set_lengths pkt null 0)
set_payload room pkt (some bytes) len = do
  if not (is_null pkt.payload) then free pkt.payload else done tt
  if len == 0
      then done (set_lengths pkt null 0)
      else if not room
      then done (record pkt { payload = null })
      else split_at len bytes >>= λ (copied, rest). done (set_lengths pkt (heap copied) len)

-- The `len` bytes that a payload pointer leads to.
unfoldable pub payload_bytes : List ℕ → Payload → ℕ → Run (List ℕ)
payload_bytes rx_buf null len = fault
payload_bytes rx_buf (heap bytes) len = split_at len bytes >>= λ (read, rest). done read
payload_bytes rx_buf rx_static len = split_at len rx_buf >>= λ (read, rest). done read
