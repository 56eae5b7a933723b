-- ===== src/Dispatch/Examples.antt =====
-- The theorems on the dispatcher at a lamp before its handshake.
use iot_yk.Io.{c_string}
use iot_yk.Base.{if◌then◌else◌}
use iot_yk.Base.{Option, arith}
use Prim.Native.String.{String}
use text.Mathlib.Text.{◌==◌ as str_eq}
use iot_yk.Nvs.{nvs_config_get_str}
use iot_yk.Nvs.Memory.{memory_nvs, memory_nvs-Stores}
use iot_yk.Wifi.{Wifi, disconnected}
use iot_yk.Provision.Session.{SslResult}
use iot_yk.Provision.Creds.{Creds}
use iot_yk.Provision.Entered.{commit_acts}
use iot_yk.Dispatch.Start.{boot, apply_acts}
use iot_yk.Dispatch.Provisioned.{Boots, boot-Boots}
use iot_yk.Base.{ℕ, ◌≡◌, refl, true, false, none, some, List, [], ◌∷◌, ◌++◌, take, replicate}
use iot_yk.Base.Bytes.{done}
use iot_yk.Base.Looking.{Ensures}
use iot_yk.Session
use iot_yk.Report.{Memory}
use iot_yk.Report.Found.{IsMemory}
use iot_yk.Security.Keys.{blank_ctx}
use iot_yk.Ota.{blank}
use iot_yk.Dispatch.Manager.{watch, is_restart, some_row, watch-restarts}
use iot_yk.Dispatch.{World, Platform, Crypto, Output}
use iot_yk.Dispatch.Incoming.{handle_incoming_packet}
use iot_yk.Dispatch.Guard.{Untouched, admissible, handle-Untouched}
use iot_yk.Dispatch.Forged.{bare_raw, bare, parse-bare, forged-TurnsOn}

abbrev stack : ℕ → ℕ → Memory
stack tlv_size raw_size = record {
  rx_buf = replicate 512 0;
  tlv_buf = replicate tlv_size 0;
  raw = replicate raw_size 0;
  packet_room = true;
  payload_room = true;
}

stack-IsMemory : IsMemory 64 256 (stack 64 256)
stack-IsMemory = record { tlv_len = refl; raw_len = refl }

abbrev crypto : Crypto
crypto = record {
  import_key = λ key. true;
  agree = λ private public. some (replicate 32 7);
  hkdf = λ secret salt. (true, secret);
  sha256 = λ xs. some (take 32 (xs ++ replicate 32 0));
  sign_hash = λ key hash. some (hash ++ hash);
  aead_decrypt = λ key nonce aad text. none;
  image_hash = λ xs. take 32 (xs ++ replicate 32 0);
  float_of = λ n. n;
}

abbrev platform : Platform
platform = record {
  connected = true;
  ble = false;
  time_us = 5000000;
  stack = stack;
  reading = record { temperature = 0; humidity = 0; motion = false; light_raw = 0; valid = true };
  metrics = record {
    free_heap = 1;
    min_heap = 1;
    task_count = 1;
    rssi = 1;
    last_rtt_ms = 1;
    time_us = 1;
  };
  drv = record {
    partition = true;
    begins = true;
    writes = true;
    ends = true;
    boots = true;
    stack = [];
  };
  new_pair = none;
  fuel = 600;
}

abbrev lamp : World
lamp = record {
  sec_ctx = blank_ctx;
  session = Session.init (some false);
  replay = record { highest_id = 0; window_bits = 0; initialised = true };
  qos = record { slots = []; send_fn = true; timer = true; last_rtt_ms = 0 };
  device_id = 76 ∷ [];
  relay = record { state = false; has_send = true; device_id = 76 ∷ []; has_session = true };
  sensor = record { has_send = true; device_id = 76 ∷ [] };
  health = record { has_send = true; device_id = 76 ∷ []; restart_count = 1 };
  ota = record {
    st = blank;
    has_send = true;
    device_id = 76 ∷ [];
    has_partition = false;
    sha_ctx = none;
  };
}

-- A relay command before the handshake.
handle-Untouched_example :
    Ensures
      (Untouched lamp)
      (handle_incoming_packet crypto platform (replicate 512 0) (bare_raw 1 1) 49 lamp)
unfolding admissible Session.is_active Session.init
handle-Untouched_example =
    handle-Untouched crypto platform (replicate 512 0) (replicate 512 0) (bare_raw 1 1) 49 lamp true
      (bare 1 1) (parse-bare (replicate 512 0) 1 1) refl

forged-TurnsOn_example :
    (w1 w2 : World) × (made : List Output) × (handle_incoming_packet crypto platform
        (replicate 512 0)
        (bare_raw 6 4)
        49
        lamp
      ≡ some (done (w1, replicate 512 0, [])))
    × (handle_incoming_packet crypto platform (replicate 512 0) (bare_raw 1 1) 49 w1
        ≡ some (done (w2, replicate 512 0, made)))
    × (w2.relay.state ≡ true)
forged-TurnsOn_example = forged-TurnsOn crypto platform (replicate 512 0) lamp stack-IsMemory

-- The 90th failure in a row.
watch-restarts_example :
    is_restart (watch 0 (true ∷ replicate 90 false)) ≡ some_row 90 (true ∷ replicate 90 false)
watch-restarts_example = watch-restarts (true ∷ replicate 90 false)

-- A device that was never provisioned.
abbrev fresh_store : String → Option (List ℕ)
fresh_store key = if str_eq key "device_id" then some (b'Y' ∷ b'1' ∷ []) else none

abbrev cold_wifi : Wifi
cold_wifi = record {
  state = disconnected;
  disconnect_reason = 0;
  on_connect = false;
  on_disconnect = false;
  ip = [];
  connected_bit = false;
  fail_bit = false;
  wifi_started = false;
}

abbrev home_creds : Creds
home_creds = record {
  ssid = b'h' ∷ b'i' ∷ [];
  psk = b'p' ∷ [];
  host = b'x' ∷ [];
  port = 443;
  cert_good = false;
}

boot-Boots_example :
    Boots
      (boot memory_nvs true
        (apply_acts memory_nvs (commit_acts 1 home_creds SslResult.unset none) fresh_store)
        cold_wifi)
      (b'Y' ∷ b'1' ∷ [])
      home_creds
unfolding nvs_config_get_str c_string
boot-Boots_example =
    boot-Boots memory_nvs 1 home_creds SslResult.unset none fresh_store (b'Y' ∷ b'1' ∷ []) true
      cold_wifi memory_nvs-Stores refl refl (omega arith) (omega arith) (omega arith)
