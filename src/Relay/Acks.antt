-- ===== src/Relay/Acks.antt =====
-- What a relay command answers: relay_service.c and the packet that the server parses.
use iot_yk.Base.{replicate}
use iot_yk.Packet.{rx_static}
use iot_yk.Packet.{zeroed}
use iot_yk.Io.{c_string}
use iot_yk.Base.{if◌then◌else◌}
use iot_yk.Packet.{set_header}
use iot_yk.Base.Bytes.{strncpy}
use iot_yk.Io.{ble_notify, gpio_set_level}
use iot_yk.Io.{send_some-sent}
use iot_yk.Base.{◌∙◌}
use iot_yk.Tlv.ReadBack.{entry-Reads}
use iot_yk.Base.{◌++◌}
use iot_yk.Report.Found.{find-parse-report}
use iot_yk.Io.{send}
use iot_yk.Tlv.RoundTrip.{field_of}
use iot_yk.Report.Found.{delivered}
use iot_yk.Tlv.Read.{read_uint8}
use iot_yk.Tlv.Find.{find}
use iot_yk.Packet.Read.{parse}
use iot_yk.Tlv.Find.{Tlv}
use iot_yk.Packet.{Packet}
use iot_yk.Tlv.{add_uint8}
use iot_yk.Tlv.{Builder}
use iot_yk.Tlv.{builder_init}
use iot_yk.Io.{send_some}
use iot_yk.Tlv.Build.{add_field}
use iot_yk.Base.{Option}
use iot_yk.Tlv.Built.{add_fields}
use iot_yk.Base.{Bool, true, zero, suc, refl, not, some, none}
use iot_yk.Report.Found.{report-total}
use iot_yk.Base.{false}
use iot_yk.Report.Header.{set_header-IsMessage}
use iot_yk.Base.Bytes.{done}
use iot_yk.Report.Heard.{IsMessage}
use iot_yk.Io.{Effect}
use iot_yk.Base.{◌^◌}
use iot_yk.Base.{◌≡◌, ◌<◌}
use iot_yk.Base.{length, [], List}
use iot_yk.Cbor.Encoding.{head_bytes}
use iot_yk.Base.{◌∷◌, ℕ}
use iot_yk.Report.Found.{IsMemory}
use iot_yk.Base.{arith}
use iot_yk.Tlv.Build.{uint8, field_bytes}
use iot_yk.Tlv.RoundTrip.{Entries, AreEntries, entries_bytes}
use iot_yk.Report.{Memory}
use iot_yk.Relay.{
  Relay, level_of, tlv_state, ack_packet, send_ack, notify_ble_sync, report_state, handle,
}

-- The one entry of an acknowledgement.
abbrev pub ack_fields : Bool → Entries
ack_fields state = (tlv_state, uint8 (level_of state)) ∷ []

ack_fields-AreEntries : (state : Bool) → AreEntries (ack_fields state)
ack_fields-AreEntries true = (omega arith, omega arith, tt)
ack_fields-AreEntries false = (omega arith, omega arith, tt)

length-ack_fields : (state : Bool) → length (entries_bytes (ack_fields state)) ≡ 2
unfolding entries_bytes field_bytes head_bytes
length-ack_fields true = refl
length-ack_fields false = refl

add_fields-ack_fields :
    (b : Builder) (state : Bool)
    → add_fields b (ack_fields state) ≡ (add_uint8 b tlv_state (level_of state)).1
unfolding add_fields add_field
add_fields-ack_fields b state = refl

-- What a command asks of the relay: its new state, or nothing for a command that is unknown.
abbrev pub new_state : ℕ → Bool → Option Bool
new_state (suc zero) state = some true
new_state (suc (suc zero)) state = some false
new_state (suc (suc (suc zero))) state = some (not state)
new_state (suc (suc (suc (suc zero)))) state = some state
new_state _ state = none

module _ (mem : Memory) (w : IsMemory 64 256 mem) (r : Relay) (packet_id session_id : ℕ)
    (dest_id : List ℕ) (h : packet_id < 2 ^ 32) (k : session_id < 2 ^ 32) where
  ack_packet-IsMessage : IsMessage (ack_packet r packet_id session_id dest_id)
  unfolding ack_packet
  ack_packet-IsMessage = set_header-IsMessage packet_id session_id _ _ _ _ _ _ false h k

  pub send_ack-total :
      (raw : List ℕ) × (send_ack mem r packet_id session_id dest_id
        ≡ done (send_some r.has_send raw))
  unfolding send_ack
  send_ack-total =
      let (raw, e) =
        report-total mem 256 (ack_packet r packet_id session_id dest_id) 64 (ack_fields r.state)
          ack_packet-IsMessage (ack_fields-AreEntries r.state) w
          (omega (arith, length-ack_fields r.state)) (omega arith) (omega arith) in
      let e' = rw (add_fields-ack_fields (builder_init mem.tlv_buf 64) r.state) at e in (raw, rw e')

-- The acknowledgement as the receiver parses it: "YK", version 5, QoS 1 in the flags, the two ids,
-- the sender and the receiver in fields of eight bytes, a direct route, the relay's service 1, the
-- action 5 and four bytes of payload in the receive buffer.
abbrev pub expected_ack : ℕ → ℕ → List ℕ → List ℕ → Packet
expected_ack packet_id session_id sender receiver = record {
  header = record {
    magic = (89, 75);
    version = 5;
    flags = 1;
    packet_id = packet_id;
    session_id = session_id;
    source_id = strncpy 8 (c_string sender);
    dest_id = strncpy 8 (c_string receiver);
    route_type = 1;
    service_id = 1;
    action_id = 5;
    payload_len = 4;
  };
  payload = rx_static;
  auth_tag = replicate 16 0;
  payload_len = 4;
}

delivered-ack_packet :
    (r : Relay) (packet_id session_id : ℕ) (dest_id : List ℕ)
    → delivered (ack_packet r packet_id session_id dest_id) 4
      ≡ expected_ack packet_id session_id r.device_id dest_id
unfolding ack_packet set_header zeroed
delivered-ack_packet r packet_id session_id dest_id = refl

-- The acknowledgement off the wire: the packet, and under its only key the state, 1 for on.
abbrev pub Acked : Bool → Packet → List ℕ → Packet → List ℕ → Type 0
Acked state pkt rx out sent =
    (rx' : List ℕ) × (t : Tlv) × (parse rx sent (length sent) out ≡ done (true, pkt, rx'))
    × (find 4 rx' 4 3 ≡ some (done (some t)))
    × (read_uint8 t ≡ done (some (if state then 1 else 0)))

-- What a command does to the pins: the relay at 4 and the LED at 2 are on or off, but for a query.
abbrev pub changes : ℕ → Bool → List Effect
changes (suc (suc (suc (suc zero)))) state = []
changes _ state =
    gpio_set_level 4 (if state then 1 else 0) ∷ gpio_set_level 2 (if state then 1 else 0) ∷ []

-- What a connected BLE client is told.
abbrev pub told : Bool → Bool → List Effect
told false state = []
told true true = ble_notify "{\"status\": \"state_changed\", \"relay_state\": true}" ∷ []
told true false = ble_notify "{\"status\": \"state_changed\", \"relay_state\": false}" ∷ []

notify_ble_sync_lem : (ble : Bool) (r : Relay) → notify_ble_sync ble r ≡ told ble r.state
unfolding notify_ble_sync
notify_ble_sync_lem ble r = elim ble as (λ b. notify_ble_sync b r ≡ told b r.state) [
  | true ↦
      elim r.state
        as (λ state. notify_ble_sync true (record r { state = state }) ≡ told true state) [
          | true ↦ refl
          | false ↦ refl
        ]
  | false ↦ refl
]

pub handle_lem :
    (mem : Memory) (ble : Bool) (action_id packet_id session_id : ℕ) (dest_id : List ℕ) (r : Relay)
    → handle mem ble action_id packet_id session_id dest_id r
      ≡ (elim (new_state action_id r.state) [
        | none ↦ done (r, [])
        | some s ↦
            report_state mem ble packet_id session_id dest_id
              (record r { state = s })
              (changes action_id s)
      ])
unfolding handle
handle_lem mem ble zero packet_id session_id dest_id r = refl
handle_lem mem ble (suc zero) packet_id session_id dest_id r = refl
handle_lem mem ble (suc (suc zero)) packet_id session_id dest_id r = refl
handle_lem mem ble (suc (suc (suc zero))) packet_id session_id dest_id r = refl
handle_lem mem ble (suc (suc (suc (suc zero)))) packet_id session_id dest_id r = refl
handle_lem mem ble (suc (suc (suc (suc (suc n))))) packet_id session_id dest_id r = ground arith

field_of-ack_fields :
    (state : Bool) → field_of (ack_fields state) tlv_state ≡ some (uint8 (level_of state))
unfolding field_of
field_of-ack_fields state = refl

module _ (mem : Memory) (w : IsMemory 64 256 mem) (place : mem.packet_room ≡ true)
    (room : mem.payload_room ≡ true) (r : Relay) (sends : r.has_send ≡ true)
    (packet_id session_id : ℕ) (dest_id : List ℕ) (h : packet_id < 2 ^ 32) (k : session_id < 2 ^ 32)
    (rx : List ℕ) (out : Packet) (e : length rx ≡ 512) where
  send_ack-Acked :
      (sent : List ℕ) × (send_ack mem r packet_id session_id dest_id ≡ done (send sent ∷ []))
      × Acked r.state (expected_ack packet_id session_id r.device_id dest_id) rx out sent
  unfolding send_ack
  send_ack-Acked =
      let pkt = ack_packet r packet_id session_id dest_id in
      let fs = ack_fields r.state in
      let all = ack_fields-AreEntries r.state in
      let len = length-ack_fields r.state in
      let (sent, rx', made, sent_len, parsed, found) =
        find-parse-report mem 256 pkt out mem.tlv_buf 64 4 fs rx
          (ack_packet-IsMessage mem w r packet_id session_id dest_id h k) all (omega (arith, len))
          place room (omega arith) (omega (arith, w.tlv_len)) (omega arith) (omega arith)
          (omega (arith, w.raw_len)) e in
      let made' = rw (add_fields-ack_fields (builder_init mem.tlv_buf 64) r.state) at made in
      let (after, hit) = rw (field_of-ack_fields r.state) at (found tlv_state) in
      (
        sent,
        rw made' (rw (send_some-sent r.has_send sent sends (omega (arith, sent_len)))),
        (
          rx',
          record {
            type_id = tlv_state;
            length = length (field_bytes (uint8 (level_of r.state)));
            value = field_bytes (uint8 (level_of r.state)) ++ after;
          },
          rw (← delivered-ack_packet r packet_id session_id dest_id) parsed,
          hit,
          entry-Reads tlv_state (uint8 (level_of r.state)) after all.1,
        ),
      )

-- Where the heap has room, the buffers are as the declarations size them and a send function is
-- set: a command that is known gives the relay its new state, sets pins 4 and 2 to 1 for on and to
-- 0 for off (a query of the state does not), sends one packet and tells the BLE client where one is
-- connected, in that order. Whoever receives the packet parses it: QoS 1, direct, service 1, action
-- 5, with the packet id and the session id of the call, from the device's id to the id that the
-- call has as the sender of the command, each id cut or padded to eight bytes; and under key 3 it
-- reads 1 for on and 0 for off.
pub handle-Acked :
    (mem : Memory) (ble : Bool) (action_id packet_id session_id : ℕ) (dest_id : List ℕ) (r : Relay)
    (state : Bool) (rx : List ℕ) (out : Packet)
    → IsMemory 64 256 mem
    → mem.packet_room ≡ true
    → mem.payload_room ≡ true
    → r.has_send ≡ true
    → packet_id < 2 ^ 32
    → session_id < 2 ^ 32
    → length rx ≡ 512
    → new_state action_id r.state ≡ some state
    → let r' = record r { state = state } in
      (sent : List ℕ) × (handle mem ble action_id packet_id session_id dest_id r
        ≡ done (r', changes action_id state ++ (send sent ∷ told ble state)))
      × Acked state (expected_ack packet_id session_id r.device_id dest_id) rx out sent
unfolding report_state
handle-Acked mem ble action_id packet_id session_id dest_id r state rx out w place room sends h k e
      known =
    let (sent, made, acked) =
      send_ack-Acked mem w place room (record r { state = state }) sends packet_id session_id
        dest_id h k rx out e in
    (
      sent,
      handle_lem mem ble action_id packet_id session_id dest_id r
          ∙ rw known (rw (made, notify_ble_sync_lem ble (record r { state = state }))),
      acked,
    )
