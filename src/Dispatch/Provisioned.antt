-- ===== src/Dispatch/Provisioned.antt =====
-- From the phone to the network: the start of esp32-firmware/main/main.c after a commit of the provisioning
-- in config/ble_provision.c, through the store of config/nvs_config.c to the driver's configuration in
-- wifi/wifi_manager.c.
use iot_yk.Wifi.{connect_wifi}
use iot_yk.Wifi.{set_ps}
use iot_yk.Wifi.{start_wifi}
use iot_yk.Wifi.{set_config}
use iot_yk.Base.{take_le}
use iot_yk.Wifi.{set_mode_sta}
use iot_yk.Provision.Session.{Notice}
use iot_yk.Base.{if_false}
use Prim.Native.String.{String}
use text.Mathlib.Text.{◌==◌ as str_eq}
use iot_yk.Base.{
  ℕ, ◌+◌, ◌≤◌, ◌≡◌, inl, inr, refl, ap, ◌∙◌, Bool, true, false, Option, none, some, List, [], ◌∷◌,
  ◌++◌, ltb, ◌==◌, if◌then◌else◌, Bool-cases, length, take, arith,
}
use iot_yk.Base.{lt→ltb}
use iot_yk.Base.Bytes.{strncpy}
use iot_yk.Io.{c_string}
use iot_yk.Nvs.{
  Nvs, nvs_config_get_str, nvs_config_set_str, nvs_config_set_u32, nvs_config_incr_restart_count,
}
use iot_yk.Nvs.Stored.{Stores, get_str-set_str, get_str-set_u32}
use iot_yk.Wifi.{
  Wifi, WifiCall, StaConfig, sta_config, wifi_manager_register_callbacks,
  wifi_manager_connect_async,
}
use iot_yk.Provision.Session.{Act, SslResult}
use iot_yk.Provision.Creds.{Creds, c_string-padded}
use iot_yk.Provision.Entered.{commit_acts, stored_cert}
use iot_yk.Dispatch.Start.{Running, Boot, running, load, boot, apply_acts}

read_whole :
    (n : ℕ) (text : List ℕ)
    → length text ≤ n
    → (if ltb (length (take n text)) (n + 1) then some (take n text) else none) ≡ some text
read_whole n text h = rw (take_le n text h, lt→ltb (length text) (n + 1) (omega arith)) refl

module _ (nvs : Nvs) (stores : Stores nvs) where
  abbrev read : nvs.Store → String → ℕ → Option (List ℕ)
  read s key n = nvs_config_get_str nvs s key n

  apply_cert :
      (result : SslResult) (buffer : Option (List ℕ)) (rest : List Act) (s : nvs.Store) (j : String)
      (n : ℕ)
      → str_eq "ssl_cert" j ≡ false
      → ((s' : nvs.Store) → read (apply_acts nvs rest s') j n ≡ read s' j n)
      → read (apply_acts nvs (stored_cert result buffer ++ rest) s) j n ≡ read s j n
  unfolding apply_acts
  apply_cert SslResult.unset buffer rest s j n e h = h s
  apply_cert SslResult.ca_ok none rest s j n e h = h s
  apply_cert SslResult.ca_ok (some []) rest s j n e h = h s
  apply_cert SslResult.ca_ok (some (x ∷ text)) rest s j n e h =
      h (nvs_config_set_str nvs s "ssl_cert" (x ∷ text)).1
      ∙ get_str-set_str nvs stores s "ssl_cert" j (x ∷ text) n
      ∙ if_false _ _ (str_eq "ssl_cert" j) e
  apply_cert SslResult.ca_failed_fallback_ok buffer rest s j n e h = h s
  apply_cert SslResult.ca_failed_fallback_failed buffer rest s j n e h = h s

  module _ (seq : ℕ) (c : Creds) (result : SslResult) (buffer : Option (List ℕ))
      (s : nvs.Store) where
    abbrev with_ssid : nvs.Store
    with_ssid = (nvs_config_set_str nvs s "wifi_ssid" (take 63 (c_string c.ssid))).1

    abbrev with_psk : nvs.Store
    with_psk = (nvs_config_set_str nvs with_ssid "wifi_password" (take 63 (c_string c.psk))).1

    abbrev with_url : nvs.Store
    with_url = (nvs_config_set_str nvs with_psk "server_url" (take 127 (c_string c.host))).1

    abbrev with_port : nvs.Store
    with_port = (nvs_config_set_u32 nvs with_url "control_port" c.port).1

    abbrev after : nvs.Store
    after = apply_acts nvs (commit_acts seq c result buffer) s

    -- The keys behind the address are others.
    later_keys :
        (j : String) (n : ℕ)
        → str_eq "ssl_cert" j ≡ false
        → str_eq "control_port" j ≡ false
        → read after j n ≡ read with_url j n
    unfolding apply_acts
    later_keys j n e f =
        apply_cert result buffer (Act.notify (Notice.commit_ok seq) ∷ Act.restart ∷ []) with_port j
          n e (λ s'. refl)
        ∙ get_str-set_u32 nvs stores with_url "control_port" j c.port n f

    read_url : length (c_string c.host) ≤ 127 → read after "server_url" 128 ≡ some (c_string c.host)
    read_url h =
        later_keys "server_url" 128 refl refl
        ∙ get_str-set_str nvs stores with_psk "server_url" "server_url" (take 127 (c_string c.host))
            128
        ∙ read_whole 127 (c_string c.host) h

    read_psk : length (c_string c.psk) ≤ 63 → read after "wifi_password" 64 ≡ some (c_string c.psk)
    read_psk h =
        later_keys "wifi_password" 64 refl refl
        ∙ get_str-set_str nvs stores with_psk "server_url" "wifi_password"
            (take 127 (c_string c.host)) 64
        ∙ get_str-set_str nvs stores with_ssid "wifi_password" "wifi_password"
            (take 63 (c_string c.psk)) 64
        ∙ read_whole 63 (c_string c.psk) h

    read_ssid : length (c_string c.ssid) ≤ 63 → read after "wifi_ssid" 64 ≡ some (c_string c.ssid)
    read_ssid h =
        later_keys "wifi_ssid" 64 refl refl
        ∙ get_str-set_str nvs stores with_psk "server_url" "wifi_ssid" (take 127 (c_string c.host))
            64
        ∙ get_str-set_str nvs stores with_ssid "wifi_password" "wifi_ssid"
            (take 63 (c_string c.psk)) 64
        ∙ get_str-set_str nvs stores s "wifi_ssid" "wifi_ssid" (take 63 (c_string c.ssid)) 64
        ∙ read_whole 63 (c_string c.ssid) h

    read_id : read after "device_id" 9 ≡ read s "device_id" 9
    read_id =
        later_keys "device_id" 9 refl refl
        ∙ get_str-set_str nvs stores with_psk "server_url" "device_id" (take 127 (c_string c.host))
            9
        ∙ get_str-set_str nvs stores with_ssid "wifi_password" "device_id"
            (take 63 (c_string c.psk)) 9
        ∙ get_str-set_str nvs stores s "wifi_ssid" "device_id" (take 63 (c_string c.ssid)) 9

  -- The restart counter is another key.
  counted :
      (s : nvs.Store) (j : String) (n : ℕ)
      → str_eq "restart_count" j ≡ false
      → read (nvs_config_incr_restart_count nvs s).1 j n ≡ read s j n
  unfolding nvs_config_incr_restart_count
  counted s j n e = get_str-set_u32 nvs stores s "restart_count" j _ n e

-- The calls that configure WiFi hold the SSID and the password.
pub record Connects (ssid psk : List ℕ) (calls : List WifiCall) : Type 0 where
  pub config : StaConfig
  pub called : calls ≡ set_mode_sta ∷ set_config config ∷ start_wifi ∷ set_ps ∷ connect_wifi ∷ []
  pub ssid_is : c_string config.ssid ≡ ssid
  pub password_is : c_string config.password ≡ psk

pub record Boots (b : Boot) (id : List ℕ) (c : Creds) : Type 0 where
  pub program : Running
  pub runs : b ≡ running program
  pub device_id_is : program.device_id ≡ id
  pub url_is : program.server_url ≡ c_string c.host
  pub connects : Connects (c_string c.ssid) (c_string c.psk) program.calls

c_string_twice : (text : List ℕ) → c_string (c_string text) ≡ c_string text
unfolding c_string
c_string_twice [] = refl
c_string_twice (x ∷ text) = elim (Bool-cases (x == 0)) [
  | inl end ↦ rw end refl
  | inr more ↦ rw (more, more) (ap (◌∷◌ x) (c_string_twice text))
]

padded_whole :
    (n : ℕ) (text : List ℕ)
    → length (c_string text) ≤ n
    → c_string (strncpy n (c_string text) ++ 0 ∷ []) ≡ c_string text
unfolding strncpy
padded_whole n text h =
    c_string-padded n n (c_string text) (omega arith)
    ∙ ap (take n) (c_string_twice text)
    ∙ take_le n (c_string text) h

sta_config-Connects :
    (ssid psk : List ℕ) (w : Wifi)
    → w.wifi_started ≡ false
    → length (c_string ssid) ≤ 31
    → length (c_string psk) ≤ 63
    → Connects
        (c_string ssid)
        (c_string psk)
        (wifi_manager_connect_async
          (c_string ssid)
          (c_string psk)
          (wifi_manager_register_callbacks true true w)).1
unfolding wifi_manager_connect_async sta_config wifi_manager_register_callbacks
sta_config-Connects ssid psk w off h k = record {
  config = sta_config (c_string ssid) (c_string psk);
  called = rw off refl;
  ssid_is = padded_whole 31 ssid h;
  password_is = padded_whole 63 psk k;
}

-- Over an NVS that stores: a device that has an id, and in whose store a commit has put the
-- credentials entered, an SSID of up to 31 bytes, a password of up to 63 and a host of up to 127,
-- does not come up in BLE mode. It has its id, its server's address is the host as it was entered,
-- and the one configuration that it gives to the WiFi driver holds the SSID and the password.
pub boot-Boots :
    (nvs : Nvs) (seq : ℕ) (c : Creds) (result : SslResult) (buffer : Option (List ℕ))
    (s : nvs.Store) (id : List ℕ) (ble_starts : Bool) (w : Wifi)
    → Stores nvs
    → w.wifi_started ≡ false
    → nvs_config_get_str nvs s "device_id" 9 ≡ some id
    → length (c_string c.ssid) ≤ 31
    → length (c_string c.psk) ≤ 63
    → length (c_string c.host) ≤ 127
    → Boots (boot nvs ble_starts (apply_acts nvs (commit_acts seq c result buffer) s) w) id c
unfolding boot
boot-Boots nvs seq c result buffer s id ble_starts w stores off has_id h k l =
    let s1 = after nvs stores seq c result buffer s in
    let s2 = (nvs_config_incr_restart_count nvs s1).1 in
    let w2 = wifi_manager_register_callbacks true true w in
    let id_read : nvs_config_get_str nvs s2 "device_id" 9 ≡ some id =
      counted nvs stores s1 "device_id" 9 refl
      ∙ read_id nvs stores seq c result buffer s
      ∙ has_id in
    let ssid_read : nvs_config_get_str nvs s2 "wifi_ssid" 64 ≡ some (c_string c.ssid) =
      counted nvs stores s1 "wifi_ssid" 64 refl
      ∙ read_ssid nvs stores seq c result buffer s (omega arith) in
    let psk_read : nvs_config_get_str nvs s2 "wifi_password" 64 ≡ some (c_string c.psk) =
      counted nvs stores s1 "wifi_password" 64 refl ∙ read_psk nvs stores seq c result buffer s k in
    let url_read : nvs_config_get_str nvs s2 "server_url" 128 ≡ some (c_string c.host) =
      counted nvs stores s1 "server_url" 128 refl ∙ read_url nvs stores seq c result buffer s l in
    record {
      program = load nvs s2 w2;
      runs = rw (id_read, ssid_read, psk_read) refl;
      device_id_is = unfold load in rw id_read refl;
      url_is = unfold load in rw url_read refl;
      connects =
          unfold load in rw (ssid_read, psk_read) (sta_config-Connects c.ssid c.psk w off h k);
    }
