-- ===== src/Provision/Events.antt =====
-- What happens to BLE provisioning in esp32-firmware/main/config/ble_provision.c: the commands of the
-- phone, the events of the BLE stack, and the tasks for WiFi and for the check of the server, each
-- task cut where it waits for something outside. What the outside answers is part of the event.
use iot_yk.Base.{
  ℕ, Bool, true, false, not, ◌&&◌, ◌||◌, Option, none, some, List, [], ◌∷◌, ◌++◌, ltb, ◌==◌,
  if◌then◌else◌, length, take,
}
use iot_yk.Base.{set}
use iot_yk.Base.Bytes.{done, ◌>>=◌, u32}
use iot_yk.Provision.{Command}
use iot_yk.Provision.Session.{
  ProvState, SslResult, Session, Prov, Task, Notice, Act, update_crc, prov_session_clear,
  copy_string,
}
use iot_yk.Provision.Commands.{Root, Step, same_string, process_json_command}
use iot_yk.Io.{c_string, codes}

pub data Event : Type 0 where
  -- A line of the phone, the clock and a random number.
  line : Command → ℕ → ℕ → Event
  -- `BLE_GAP_EVENT_CONNECT`: whether its status is 0, and the handle.
  connect : Bool → ℕ → Event
  disconnect : Event
  -- `BLE_GAP_EVENT_SUBSCRIBE`: whether it is the TX characteristic, `cur_notify`, and the clock.
  subscribe : Bool → Bool → ℕ → Event
  wifi_connect_begins : Event
  -- What `wifi_manager_connect` answers, the address and the signal strength.
  wifi_connect_ends : Bool → List ℕ → ℕ → Event
  -- The text that `wifi_manager_scan` leaves.
  scan_begins : List ℕ → Event
  scan_ends : Event
  -- Whether WiFi is connected, and whether it can be.
  validation_begins : Bool → Bool → Event
  -- Whether the phone's certificate and the built-in ones are good.
  ssl_checked : Bool → Bool → Event
  -- The datagram that came, if one did.
  udp_checked : Option (List ℕ) → Event

abbrev set_state : ProvState → Session → Session
set_state state s = record s { state = state }

-- `stages_complete |= BIT<i>`
abbrev complete : ℕ → Session → Session
complete i s = record s { stages_complete = set s.stages_complete i true }

abbrev pub ssl_result_of : Bool → Bool → SslResult
ssl_result_of true fallback_ok = SslResult.ca_ok
ssl_result_of false true = SslResult.ca_failed_fallback_ok
ssl_result_of false false = SslResult.ca_failed_fallback_failed

-- The text from the first `[` on, or an empty array.
unfoldable pub networks : List ℕ → List ℕ
unfolding codes
networks [] = codes "[]}"
networks (c ∷ text) = let rest = networks text in if c == b'[' then c ∷ text else rest

module _ (session_crc : Session → ℕ) where
  abbrev seal : Prov → Session → Prov
  seal p s = record p { session = update_crc session_crc s }

  -- `ble_gap_event`
  unfoldable pub gap_connect : Bool → ℕ → Prov → Step
  gap_connect ok handle p =
      if ok
      then done (record p { conn_handle = some handle; ble_connected = true }, [])
      else done (p, Act.advertise ∷ [])

  unfoldable pub gap_disconnect : Prov → Step
  unfolding prov_session_clear
  gap_disconnect p =
      let alone = record p { conn_handle = none; ble_connected = false; notify_enabled = false } in
      done (prov_session_clear session_crc alone, Act.advertise ∷ [])

  unfoldable pub gap_subscribe : Bool → Bool → ℕ → Prov → Step
  unfolding update_crc
  gap_subscribe is_tx cur_notify now p =
      let heard = record p { notify_enabled = true } in
      let begun = record p.session { last_heartbeat_time = u32 now; state = ProvState.scan } in
      if is_tx && cur_notify
      then done (
        seal heard begun,
        Act.notify (Notice.ble_ready p.session.session_id)
            ∷ Act.create_task Task.wifi_scan_task
            ∷ [],
      )
      else done (p, [])

  -- Whether `ble_notify_task` sends what it takes from its queue.
  unfoldable pub notify_sends : Prov → Bool
  notify_sends p = p.ble_connected && p.notify_enabled

  -- `wifi_connect_task`, up to its call of `wifi_manager_connect` and from there on.
  unfoldable pub wifi_connect_begin : Prov → Step
  unfolding update_crc
  wifi_connect_begin p = copy_string 64 p.session.temp_ssid >>= λ ssid.
      copy_string 64 p.session.temp_psk >>= λ psk. done (
        seal p (set_state ProvState.wifi_connect p.session),
        Act.notify Notice.validating ∷ Act.connect_wifi ssid psk ∷ [],
      )

  unfoldable pub wifi_connect_end : Bool → List ℕ → ℕ → Prov → Step
  unfolding update_crc
  wifi_connect_end ok ip rssi p =
      if ok
      then done (
        seal p (set_state ProvState.creds_recv (complete 0 p.session)),
        Act.notify (Notice.wifi_ok ip rssi) ∷ [],
      )
      else done (seal p (set_state ProvState.faulty p.session), Act.notify Notice.wifi_fail ∷ [])

  -- `wifi_scan_task`, from its report to its wait for the phone, and after that.
  unfoldable pub scan_begin : List ℕ → Prov → Step
  unfolding networks codes
  scan_begin scan_buf p = done (
    record p { scan_ack_received = false },
    Act.scan_wifi
        ∷ Act.notify (Notice.scan_results p.session.session_id (networks (c_string scan_buf)))
        ∷ [],
  )

  unfoldable pub scan_end : Prov → Step
  unfolding update_crc
  scan_end p =
      if p.scan_ack_received
      then done (seal p (set_state ProvState.creds_recv p.session), [])
      else done (seal p (set_state ProvState.faulty p.session), Act.notify Notice.timeout_scan ∷ [])

  -- `validation_task`, up to the check of the server's certificate.
  unfoldable pub validation_begin : Bool → Bool → Prov → Step
  unfolding update_crc
  validation_begin is_connected can_connect p = copy_string 64 p.session.temp_ssid >>= λ ssid.
      copy_string 64 p.session.temp_psk >>= λ psk. copy_string 128 p.session.temp_host >>= λ host.
      done (
        seal p (set_state ProvState.ssl_validate p.session),
        if is_connected
            then []
            else Act.notify Notice.validating
              ∷ Act.connect_wifi ssid psk
              ∷ (if can_connect then [] else Act.notify Notice.wifi_fail ∷ []),
      )

  -- What the check of the server's certificate tells the phone.
  unfoldable pub ssl_notices : Bool → Bool → List Act
  ssl_notices has_cert ca_ok =
      if has_cert
      then (if ca_ok
          then Act.notify Notice.ssl_ca_ok ∷ []
          else Act.notify Notice.ssl_ca_failed ∷ [])
      else Act.notify Notice.ssl_ca_none ∷ []

  -- The check itself, up to the wait for the probe.
  unfoldable pub ssl_check : Bool → Bool → Prov → Step
  unfolding update_crc ssl_notices
  ssl_check cert_good fallback_good p =
      let has_cert = ltb 0 p.cert.accumulated in
      let ca_ok = has_cert && cert_good in
      let fallback_ok = not ca_ok && fallback_good in
      let result = ssl_result_of ca_ok fallback_ok in
      let s = update_crc session_crc (record (complete 1 p.session) { ssl_result = result }) in
      let told =
        Act.notify Notice.ssl_running
        ∷ (ssl_notices has_cert ca_ok ++ Act.notify (Notice.ssl_done result) ∷ []) in
      if ca_ok || fallback_ok
      then done (
        seal p (set_state ProvState.udp_probe s),
        told ++ Act.notify (Notice.udp_ready s.udp_nonce) ∷ [],
      )
      else done (seal p (set_state ProvState.faulty s), told)

  -- A datagram of the probe and the nonce, of which 63 bytes are read.
  unfoldable pub is_probe : List ℕ → Option (List ℕ) → Bool
  unfolding same_string codes
  is_probe nonce none = false
  is_probe nonce (some datagram) =
      ltb 0 (length datagram)
      && same_string (c_string (take 63 datagram)) (codes "YKP_PROBE:" ++ nonce)

  unfoldable pub udp_check : Option (List ℕ) → Prov → Step
  unfolding update_crc is_probe
  udp_check datagram p =
      if is_probe p.session.udp_nonce datagram
      then done (
        seal p
            (set_state ProvState.report_wait (record (complete 2 p.session) { udp_result = true })),
        Act.notify Notice.udp_ok ∷ Act.notify (Notice.report p.session.session_id) ∷ [],
      )
      else done (seal p (set_state ProvState.faulty p.session), Act.notify Notice.udp_timeout ∷ [])

  module _ (cjson : List ℕ → Option Root) where
    unfoldable pub step : Event → Prov → Step
    step (line cmd now random) p =
        process_json_command session_crc cjson cmd.json cmd.hmac now random p
    step (connect ok handle) p = gap_connect ok handle p
    step disconnect p = gap_disconnect p
    step (subscribe is_tx cur_notify now) p = gap_subscribe is_tx cur_notify now p
    step wifi_connect_begins p = wifi_connect_begin p
    step (wifi_connect_ends ok ip rssi) p = wifi_connect_end ok ip rssi p
    step (scan_begins scan_buf) p = scan_begin scan_buf p
    step scan_ends p = scan_end p
    step (validation_begins is_connected can_connect) p =
        validation_begin is_connected can_connect p
    step (ssl_checked ca_ok fallback_ok) p = ssl_check ca_ok fallback_ok p
    step (udp_checked datagram) p = udp_check datagram p

    unfoldable pub run : List Event → Prov → Step
    run [] p = done (p, [])
    run (e ∷ es) p =
        step e p >>= λ first. run es first.0 >>= λ later. done (later.0, first.1 ++ later.1)
