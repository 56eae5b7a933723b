-- ===== src/Provision/Session.antt =====
-- The state of BLE provisioning in esp32-firmware/main/config/ble_provision.c: the session, the
-- certificate that arrives in parts, and what the functions call. The mutexes only keep tasks
-- apart and are left out; a JSON value is what cJSON makes of it.
use iot_yk.Base.{
  ℕ, zero, suc, ◌+◌, ◌-◌, ◌/◌, ◌%◌, Bool, false, ◌&&◌, Option, none, some, List, [], ◌∷◌, ◌++◌, ltb,
  ◌==◌, if◌then◌else◌, length, drop, replicate,
}
use Prim.Native.String.{String}
use iot_yk.Base.Bytes.{Run, done, fault, strncpy}
use iot_yk.Io.{c_string}

pub data ProvState : Type 0 where
  idle scan creds_recv wifi_connect ssl_validate udp_probe : ProvState
  report_wait nvs_commit reboot faulty : ProvState

-- The texts of `ssl_result`; `unset` is the empty text.
pub data SslResult : Type 0 where
  unset ca_ok ca_failed_fallback_ok ca_failed_fallback_failed : SslResult

-- `prov_session_t`: character arrays that `strncpy` fills are bytes, the others are strings.
pub record Session : Type 0 where
  pub sentinel_start : ℕ
  pub state : ProvState
  pub session_id : ℕ
  pub stages_complete : List Bool
  pub udp_nonce : List ℕ
  pub ssl_result : SslResult
  pub udp_result : Bool
  pub commit_started : Bool
  pub nonce_valid : Bool
  pub temp_ssid : List ℕ
  pub temp_psk : List ℕ
  pub temp_host : List ℕ
  pub temp_port : ℕ
  pub temp_udp_port : ℕ
  pub hmac_key : List ℕ
  pub crc : ℕ
  pub sentinel_end : ℕ
  pub last_heartbeat_time : ℕ

-- `cert_buffer`, the string in it if it is there, and `cert_accumulation_len`.
pub record Cert : Type 0 where
  pub buffer : Option (List ℕ)
  pub accumulated : ℕ

-- With the handle of the connection, and the two bits of the event group that are read.
pub record Prov : Type 0 where
  pub session : Session
  pub cert : Cert
  pub scan_ack_received : Bool
  pub conn_handle : Option ℕ
  pub ble_connected : Bool
  pub notify_enabled : Bool

pub data Task : Type 0 where
  wifi_connect_task wifi_scan_task validation_task : Task

-- The notifications, each with the values in its text.
pub data Notice : Type 0 where
  hmac_fail pong session_timeout : Notice
  validating wifi_fail timeout_scan : Notice
  state_report : ProvState → ℕ → ℕ → Notice
  scan_acked : ℕ → Notice
  wifi_connecting : ℕ → Notice
  creds_ok : List ℕ → ℕ → ℕ → Notice
  rescan_acked : ℕ → Notice
  set_cert_acked : ℕ → Bool → ℕ → Notice
  commit_acked : ℕ → Notice
  report_acked : ℕ → Notice
  commit_ok : ℕ → Notice
  wifi_ok : List ℕ → ℕ → Notice
  ble_ready : ℕ → Notice
  scan_results : ℕ → List ℕ → Notice
  ssl_done : SslResult → Notice
  udp_ready : List ℕ → Notice
  ssl_running ssl_ca_ok ssl_ca_failed ssl_ca_none udp_ok udp_timeout : Notice
  report : ℕ → Notice

pub data Act : Type 0 where
  notify : Notice → Act
  create_task : Task → Act
  nvs_set_str : String → List ℕ → Act
  nvs_set_u32 : String → ℕ → Act
  connect_wifi : List ℕ → List ℕ → Act
  scan_wifi : Act
  advertise : Act
  restart : Act

abbrev pub sentinel_value : ℕ
sentinel_value = 0xDEADBEEF

abbrev pub cert_buf_size : ℕ
cert_buf_size = 8192

abbrev pub cleared_buffer : Option (List ℕ) → Option (List ℕ)
cleared_buffer none = none
cleared_buffer (some text) = some []

-- `memset` of the buffer.
unfoldable pub cleared_cert : Cert → Cert
cleared_cert cert = record { buffer = cleared_buffer cert.buffer; accumulated = 0 }

-- The CRC of the ROM over the fields before `crc`.
module _ (session_crc : Session → ℕ) where
  unfoldable pub update_crc : Session → Session
  update_crc s = record s { crc = session_crc s }

  unfoldable pub cleared_session : Session
  unfolding update_crc
  cleared_session = update_crc (record {
    sentinel_start = sentinel_value;
    state = idle;
    session_id = 0;
    stages_complete = false ∷ false ∷ false ∷ [];
    udp_nonce = [];
    ssl_result = unset;
    udp_result = false;
    commit_started = false;
    nonce_valid = false;
    temp_ssid = replicate 64 0;
    temp_psk = replicate 64 0;
    temp_host = replicate 128 0;
    temp_port = 0;
    temp_udp_port = 0;
    hmac_key = replicate 32 0;
    crc = 0;
    sentinel_end = sentinel_value;
    last_heartbeat_time = 0;
  })

  -- `prov_session_clear`
  unfoldable pub prov_session_clear : Prov → Prov
  unfolding cleared_session cleared_cert
  prov_session_clear p = record p { session = cleared_session; cert = cleared_cert p.cert }

  unfoldable pub prov_session_crc_verify : Session → Bool
  prov_session_crc_verify s =
      s.sentinel_start == sentinel_value
      && s.sentinel_end == sentinel_value
      && s.crc == session_crc s

-- A digit of a hexadecimal number, in lower case.
unfoldable pub hex_digit : ℕ → ℕ
hex_digit n = if ltb n 10 then b'0' + n else b'a' + (n - 10)

-- `%08lx`
unfoldable pub hex_digits : ℕ → ℕ → List ℕ
hex_digits zero n = []
hex_digits (suc k) n = hex_digits k (n / 16) ++ hex_digit (n % 16) ∷ []

-- `strncpy` of a value of cJSON into an array of `n + 1` bytes; a null pointer is a fault.
unfoldable pub copy_value : ℕ → Option (List ℕ) → List ℕ → Run (List ℕ)
copy_value n none old = fault
copy_value n (some str) old = done (strncpy n str ++ drop n old)

-- `strcpy` of an array into one of `n` bytes.
unfoldable pub copy_string : ℕ → List ℕ → Run (List ℕ)
copy_string n array = let str = c_string array in if ltb (length str) n then done str else fault
