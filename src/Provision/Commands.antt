-- ===== src/Provision/Commands.antt =====
-- `process_json_command` of esp32-firmware/main/config/ble_provision.c. cJSON is a parameter: it makes
-- of a text an object that is looked up by key, with each value's string and its number as an `int`
-- of 32 bits. The clock, in seconds, and the random number are arguments.
use iot_yk.Base.{
  ℕ, ◌+◌, ◌-◌, Bool, true, false, not, ◌&&◌, Option, none, some, List, [], ◌∷◌, ◌++◌, ltb, ◌==◌,
  if◌then◌else◌, length,
}
use Prim.Native.String.{String}
use iot_yk.Io.{codes}
use iot_yk.Base.Bytes.{Run, done, fault, ◌>>=◌, u16, u32}
use iot_yk.Provision.Session.{
  ProvState, SslResult, Session, Cert, Prov, Task, Notice, Act, cert_buf_size, cleared_cert,
  update_crc, hex_digits, copy_value, copy_string,
}

pub record Item : Type 0 where
  pub valuestring : Option (List ℕ)
  pub valueint : ℕ

abbrev pub Root : Type 0
Root = String → Option Item

-- The texts that `cmd` is compared with.
pub data Name : Type 0 where
  ping query_state scan_ack send_wifi send_server send_creds : Name
  rescan set_cert commit report_ack confirm_provision unknown : Name

abbrev pub Step : Type 0
Step = Run (Prov × List Act)

unfoldable pub verify_payload_hmac : List ℕ → Option (List ℕ) → Bool
verify_payload_hmac json_part hex_hmac = true

-- `strcmp(a, b) == 0`
unfoldable pub same_string : List ℕ → List ℕ → Bool
same_string [] [] = true
same_string [] (d ∷ ds) = false
same_string (c ∷ cs) [] = false
same_string (c ∷ cs) (d ∷ ds) = c == d && same_string cs ds

unfoldable pub name_of : List ℕ → Name
unfolding same_string codes
name_of cmd =
    if same_string cmd (codes "ping")
    then Name.ping
    else if same_string cmd (codes "query_state")
    then Name.query_state
    else if same_string cmd (codes "scan_ack")
    then Name.scan_ack
    else if same_string cmd (codes "send_wifi")
    then Name.send_wifi
    else if same_string cmd (codes "send_server")
    then Name.send_server
    else if same_string cmd (codes "send_creds")
    then Name.send_creds
    else if same_string cmd (codes "rescan")
    then Name.rescan
    else if same_string cmd (codes "set_cert")
    then Name.set_cert
    else if same_string cmd (codes "commit")
    then Name.commit
    else if same_string cmd (codes "report_ack")
    then Name.report_ack
    else if same_string cmd (codes "confirm_provision")
    then Name.confirm_provision
    else Name.unknown

-- `uport ? uport->valueint : 47808`, as a `uint16_t`.
unfoldable pub udp_port_of : Option Item → ℕ
udp_port_of none = 47808
udp_port_of (some item) = u16 item.valueint

unfoldable pub seq_of : Option Item → ℕ
seq_of none = 0
seq_of (some item) = item.valueint

abbrev pub string_of : Option Item → Option (List ℕ)
string_of none = none
string_of (some item) = item.valuestring

unfoldable pub set_wifi : Item → Item → Session → Run Session
set_wifi ssid psk s = copy_value 63 ssid.valuestring s.temp_ssid >>= λ temp_ssid.
    copy_value 63 psk.valuestring s.temp_psk >>= λ temp_psk.
    done (record s { temp_ssid = temp_ssid; temp_psk = temp_psk })

-- With the new nonce: the session's id and the random number.
unfoldable pub set_server : ℕ → Item → Item → Option Item → Session → Run Session
unfolding udp_port_of
set_server random host port uport s = copy_value 127 host.valuestring s.temp_host >>= λ temp_host.
    done (record s {
      temp_host = temp_host;
      temp_port = u16 port.valueint;
      temp_udp_port = udp_port_of uport;
      udp_nonce = hex_digits 8 s.session_id ++ hex_digits 8 random;
      nonce_valid = true;
    })

-- The buffer is cleared before the first part.
unfoldable pub first_chunk : ℕ → Cert → Cert
unfolding cleared_cert
first_chunk chunk cert = if chunk == 1 then cleared_cert cert else cert

-- `strcat` into the buffer, and whether there was room.
unfoldable pub append_part : List ℕ → Option (List ℕ) → ℕ → Run (Cert × Bool)
append_part part none accumulated =
    done (record { buffer = none; accumulated = accumulated }, false)
append_part part (some text) accumulated =
    if ltb (accumulated + length part) (cert_buf_size - 1)
    then if ltb (length text + length part) cert_buf_size
      then done
          (record { buffer = some (text ++ part); accumulated = accumulated + length part }, true)
      else fault
    else done (record { buffer = some text; accumulated = accumulated }, false)

-- The certificate is stored if the validation found it good.
unfoldable pub store_cert : SslResult → Cert → Run (List Act)
store_cert SslResult.ca_ok cert =
    if ltb 0 cert.accumulated
    then elim cert.buffer [ none ↦ fault | some text ↦ done (Act.nvs_set_str "ssl_cert" text ∷ []) ]
    else done []
store_cert other cert = done []

module _ (session_crc : Session → ℕ) where
  unfoldable pub do_ping : ℕ → Prov → Step
  do_ping now p = done (
    record p { session = record p.session { last_heartbeat_time = u32 now } },
    Act.notify Notice.pong ∷ [],
  )

  unfoldable pub do_send_wifi : ℕ → Option Item → Option Item → Prov → Step
  unfolding update_crc
  do_send_wifi seq (some ssid) (some psk) p = set_wifi ssid psk p.session >>= λ s. done (
    record p { session = update_crc session_crc s },
    Act.notify (Notice.wifi_connecting seq) ∷ Act.create_task Task.wifi_connect_task ∷ [],
  )
  do_send_wifi seq (some ssid) none p = done (p, [])
  do_send_wifi seq none psk p = done (p, [])

  unfoldable pub do_send_server : ℕ → ℕ → Option Item → Option Item → Option Item → Prov → Step
  do_send_server random seq (some host) (some port) uport p =
      set_server random host port uport p.session >>= λ s. done (
        record p { session = update_crc session_crc s },
        Act.notify (Notice.creds_ok s.udp_nonce s.session_id seq) ∷ [],
      )
  do_send_server random seq (some host) none uport p = done (p, [])
  do_send_server random seq none port uport p = done (p, [])

  unfoldable pub do_send_creds :
      ℕ → ℕ → Option Item → Option Item → Option Item → Option Item → Option Item → Prov → Step
  do_send_creds random seq (some ssid) (some psk) (some host) (some port) uport p =
      set_wifi ssid psk p.session >>= λ with_wifi.
      set_server random host port uport with_wifi >>= λ s. done (
        record p { session = update_crc session_crc s },
        Act.notify (Notice.creds_ok s.udp_nonce s.session_id seq) ∷ [],
      )
  do_send_creds random seq (some ssid) (some psk) (some host) none uport p = done (p, [])
  do_send_creds random seq (some ssid) (some psk) none port uport p = done (p, [])
  do_send_creds random seq (some ssid) none host port uport p = done (p, [])
  do_send_creds random seq none psk host port uport p = done (p, [])

  unfoldable pub do_set_cert : ℕ → Option Item → Option (List ℕ) → Prov → Step
  unfolding first_chunk
  do_set_cert seq (some chunk) (some part) p =
      let cert = first_chunk chunk.valueint p.cert in
      append_part part cert.buffer cert.accumulated >>= λ added. done (
        record p { cert = added.0 },
        Act.notify (Notice.set_cert_acked chunk.valueint added.1 seq) ∷ [],
      )
  do_set_cert seq (some chunk) none p = done (p, [])
  do_set_cert seq none part p = done (p, [])

  unfoldable pub do_confirm : ℕ → Prov → Step
  do_confirm seq p =
      let s = record p.session { state = ProvState.nvs_commit; commit_started = true } in
      copy_string 64 s.temp_ssid >>= λ t_ssid. copy_string 64 s.temp_psk >>= λ t_psk.
      copy_string 128 s.temp_host >>= λ t_host. store_cert s.ssl_result p.cert >>= λ stored. done (
        record p { session = s },
        (Act.nvs_set_str "wifi_ssid" t_ssid
              ∷ Act.nvs_set_str "wifi_password" t_psk
              ∷ Act.nvs_set_str "server_url" t_host
              ∷ Act.nvs_set_u32 "control_port" s.temp_port
              ∷ stored)
            ++ Act.notify (Notice.commit_ok seq) ∷ Act.restart ∷ [],
      )

  unfoldable pub obey : Name → ℕ → ℕ → Root → ℕ → Prov → Step
  obey Name.ping now random root seq p = do_ping now p
  obey Name.query_state now random root seq p =
      done (p, Act.notify (Notice.state_report p.session.state p.session.session_id seq) ∷ [])
  obey Name.scan_ack now random root seq p =
      done (record p { scan_ack_received = true }, Act.notify (Notice.scan_acked seq) ∷ [])
  obey Name.send_wifi now random root seq p = do_send_wifi seq (root "ssid") (root "psk") p
  obey Name.send_server now random root seq p =
      do_send_server random seq (root "host") (root "port") (root "udp_port") p
  obey Name.send_creds now random root seq p =
      do_send_creds random seq (root "ssid") (root "psk") (root "host") (root "port")
        (root "udp_port") p
  obey Name.rescan now random root seq p =
      done (p, Act.notify (Notice.rescan_acked seq) ∷ Act.create_task Task.wifi_scan_task ∷ [])
  obey Name.set_cert now random root seq p =
      do_set_cert seq (root "chunk") (string_of (root "data")) p
  obey Name.commit now random root seq p =
      done (p, Act.notify (Notice.commit_acked seq) ∷ Act.create_task Task.validation_task ∷ [])
  obey Name.report_ack now random root seq p = done (p, Act.notify (Notice.report_acked seq) ∷ [])
  obey Name.confirm_provision now random root seq p = do_confirm seq p
  obey Name.unknown now random root seq p = done (p, [])

  unfoldable pub handle_cmd : Option (List ℕ) → ℕ → ℕ → Root → Prov → Step
  handle_cmd none now random root p = done (p, [])
  handle_cmd (some cmd) now random root p =
      obey (name_of cmd) now random root (seq_of (root "seq")) p

  unfoldable pub handle_parsed : Option Root → ℕ → ℕ → Prov → Step
  handle_parsed none now random p = done (p, [])
  handle_parsed (some root) now random p = handle_cmd (string_of (root "cmd")) now random root p

  -- `cjson` is `cJSON_Parse`, whose null pointer is `none`.
  unfoldable pub process_json_command :
      (List ℕ → Option Root) → List ℕ → Option (List ℕ) → ℕ → ℕ → Prov → Step
  unfolding verify_payload_hmac
  process_json_command cjson json_part hmac_part now random p =
      if not (verify_payload_hmac json_part hmac_part)
      then done (p, Act.notify Notice.hmac_fail ∷ [])
      else handle_parsed (cjson json_part) now random p
