-- ===== src/Relay.antt =====
-- esp32-firmware/main/services/relay_service.c: the relay, its button and its acknowledgements.
-- Log lines are left out; `ble` is what `ykp_ble_is_connected` answers, `level` what
-- `gpio_get_level` reads, and `time_us` the clock.
use iot_yk.Io.{server_name}
use Prim.Native.String.{String}
use iot_yk.Base.{ℕ, Bool, true, false, not, some, List, [], ◌∷◌, ◌++◌, ◌==◌, if◌then◌else◌}
use iot_yk.Base.Bytes.{Run, done, ◌>>=◌}
use iot_yk.Packet.{Packet, zeroed, set_header}
use iot_yk.Session.{Session, next_packet_id}
use iot_yk.Tlv.{builder_init, add_uint8}
use iot_yk.Report.{Memory, report}
use iot_yk.Io.{
  Effect, output, input, never, falling_edge, gpio_config, gpio_set_level, gpio_intr_enable,
  gpio_intr_disable, timer_create, timer_start, install_isr_service, isr_handler_add, ble_notify,
  send_some, c_string, gpio_relay_output, gpio_status_led, gpio_button_input,
}
pub mod Acks
pub mod Levels
pub mod Pins
mod Examples

abbrev pub tlv_state : ℕ
tlv_state = 0x03

abbrev pub route_direct : ℕ
route_direct = 0x01

abbrev pub svc_relay : ℕ
svc_relay = 0x01

abbrev pub relay_ack : ℕ
relay_ack = 0x05

abbrev pub qos_1 : ℕ
qos_1 = 1

-- The static variables. `has_send` and `has_session` say that the pointers are not NULL.
pub record Relay : Type 0 where
  pub state : Bool
  pub has_send : Bool
  pub device_id : List ℕ
  pub has_session : Bool

-- `s_state ? 1 : 0`
abbrev pub level_of : Bool → ℕ
level_of state = if state then 1 else 0

-- The packet of an acknowledgement, without its payload.
unfoldable pub ack_packet : Relay → ℕ → ℕ → List ℕ → Packet
ack_packet r packet_id session_id dest_id =
    set_header zeroed packet_id session_id (some (c_string r.device_id)) (some (c_string dest_id))
      route_direct svc_relay relay_ack qos_1 false

unfoldable pub send_ack : Memory → Relay → ℕ → ℕ → List ℕ → Run (List Effect)
unfolding ack_packet
send_ack mem r packet_id session_id dest_id =
    let b = (add_uint8 (builder_init mem.tlv_buf 64) tlv_state (level_of r.state)).1 in
    report mem 256 (ack_packet r packet_id session_id dest_id) b >>= λ raw.
    done (send_some r.has_send raw)

unfoldable pub notify_ble_sync : Bool → Relay → List Effect
notify_ble_sync ble r =
    if ble
    then ble_notify (
        if r.state
        then "{\"status\": \"state_changed\", \"relay_state\": true}"
        else "{\"status\": \"state_changed\", \"relay_state\": false}")
      ∷ []
    else []

-- `button_isr_handler`
unfoldable pub button_isr_handler : List Effect
button_isr_handler = gpio_intr_disable gpio_button_input ∷ timer_start ∷ []

-- The relay's pin and the status LED.
abbrev pub set_levels : Bool → List Effect
set_levels state =
    gpio_set_level gpio_relay_output (level_of state)
    ∷ gpio_set_level gpio_status_led (level_of state)
    ∷ []

-- The acknowledgement and the notification that follow a command.
unfoldable pub report_state :
    Memory → Bool → ℕ → ℕ → List ℕ → Relay → List Effect → Run (Relay × List Effect)
unfolding notify_ble_sync
report_state mem ble packet_id session_id dest_id r before =
    send_ack mem r packet_id session_id dest_id >>= λ sent.
    done (r, before ++ (sent ++ notify_ble_sync ble r))

unfoldable pub handle : Memory → Bool → ℕ → ℕ → ℕ → List ℕ → Relay → Run (Relay × List Effect)
handle mem ble action_id packet_id session_id dest_id r =
    let on = record r { state = true } in
    let off = record r { state = false } in
    let toggled = record r { state = not r.state } in
    if action_id == 0x01
    then report_state mem ble packet_id session_id dest_id on (set_levels true)
    else if action_id == 0x02
    then report_state mem ble packet_id session_id dest_id off (set_levels false)
    else if action_id == 0x03
    then report_state mem ble packet_id session_id dest_id toggled (set_levels toggled.state)
    else if action_id == 0x04
    then report_state mem ble packet_id session_id dest_id r []
    else done (r, [])

-- The pressed button toggles the relay. `s` is the session that `s_session` points to.
unfoldable pub press : Memory → Bool → ℕ → Session → Relay → Run (Session × Relay × List Effect)
press mem ble time_us s r =
    let toggled = record r { state = not r.state } in
    let (counted, s') = next_packet_id time_us s in
    let pkt_id = if r.has_session then counted else 0 in
    let sess_id = if r.has_session then s'.session_id else 0 in
    report_state mem ble pkt_id sess_id server_name toggled (set_levels toggled.state)
    >>= λ (r', made). done (if r.has_session then s' else s, r', made)

unfoldable pub button_debounce_timer_callback :
    Memory → Bool → ℕ → ℕ → Session → Relay → Run (Session × Relay × List Effect)
button_debounce_timer_callback mem ble level time_us s r =
    (if level == 0 then press mem ble time_us s r else done (s, r, [])) >>= λ (s', r', made).
    done (s', r', made ++ gpio_intr_enable gpio_button_input ∷ [])

-- `device_id` is what `nvs_config_get_device_id` leaves in the array of nine bytes.
unfoldable pub relay_service_init : List ℕ → Bool → Bool → Relay → Relay × List Effect
relay_service_init device_id has_send has_session r = (
  record r { has_send = has_send; has_session = has_session; device_id = device_id },
  gpio_config (record {
    pins = gpio_relay_output ∷ gpio_status_led ∷ [];
    mode = output;
    pull_up = false;
    interrupt = never;
  })
      ∷ gpio_set_level gpio_relay_output 0
      ∷ gpio_set_level gpio_status_led 0
      ∷ gpio_config (record {
        pins = gpio_button_input ∷ [];
        mode = input;
        pull_up = true;
        interrupt = falling_edge;
      })
      ∷ timer_create 50 false
      ∷ install_isr_service
      ∷ isr_handler_add gpio_button_input
      ∷ [],
)

unfoldable pub relay_service_get_state : Relay → Bool
relay_service_get_state r = r.state
