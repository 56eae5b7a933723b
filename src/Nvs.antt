-- ===== src/Nvs.antt =====
-- The stored configuration, esp32-firmware/main/config/nvs_config.c, over the NVS library of ESP-IDF,
-- which is a parameter: what it stores, and what its calls answer. Texts are without their end.
pub mod Stored
pub mod Memory
use Prim.Native.String.{String}
use iot_yk.Base.{ℕ, ◌+◌, ◌-◌, Bool, true, false, Option, none, some, List, if◌then◌else◌, take}
use iot_yk.Base.Bytes.{u32}
use iot_yk.Io.{codes}

pub data FlashAnswer : Type 0 where
  ok no_free_pages new_version_found other_error : FlashAnswer

-- The calls on a handle of the namespace; a reading call is given the size of the array.
pub record Nvs : Type 1 where
  pub Store : Type 0
  pub open_read : Store → Bool
  pub open_write : Store → Bool
  pub get_str : Store → String → ℕ → Option (List ℕ)
  pub set_str : Store → String → List ℕ → Bool × Store
  pub get_blob : Store → String → ℕ → Option (List ℕ)
  pub set_blob : Store → String → List ℕ → Bool × Store
  pub get_u32 : Store → String → Option ℕ
  pub set_u32 : Store → String → ℕ → Bool × Store
  pub commit : Store → Store

abbrev is_ok : FlashAnswer → Bool
is_ok ok = true
is_ok no_free_pages = false
is_ok new_version_found = false
is_ok other_error = false

abbrev wants_erase : FlashAnswer → Bool
wants_erase ok = false
wants_erase no_free_pages = true
wants_erase new_version_found = true
wants_erase other_error = false

-- Whether the partition is erased, and the answer; `again` is what the second start answers.
unfoldable pub nvs_config_init : FlashAnswer → FlashAnswer → Bool × Bool
nvs_config_init first again =
    if wants_erase first then (true, is_ok again) else (false, is_ok first)

abbrev is_some {ℓ} : {A : Type ℓ} → Option A → Bool
is_some none = false
is_some (some a) = true

-- "wss://ykp-router.onrender.com/ws"
unfoldable pub default_url : List ℕ
unfolding codes
default_url = codes "wss://ykp-router.onrender.com/ws"

module _ (nvs : Nvs) where
  open nvs use {
    Store, open_read, open_write, get_str, set_str, get_blob, set_blob, get_u32, set_u32, commit,
  }

  abbrev pub commit_if : Bool × Store → Bool × Store
  commit_if r = if r.0 then (true, commit r.1) else (false, r.1)

  unfoldable pub nvs_config_get_str : Store → String → ℕ → Option (List ℕ)
  nvs_config_get_str s key max_len = if open_read s then get_str s key max_len else none

  unfoldable pub nvs_config_set_str : Store → String → List ℕ → Bool × Store
  nvs_config_set_str s key value =
      if open_write s then commit_if (set_str s key value) else (false, s)

  unfoldable pub nvs_config_get_blob : Store → String → ℕ → Option (List ℕ)
  nvs_config_get_blob s key len = if open_read s then get_blob s key len else none

  unfoldable pub nvs_config_set_blob : Store → String → List ℕ → Bool × Store
  nvs_config_set_blob s key value =
      if open_write s then commit_if (set_blob s key value) else (false, s)

  unfoldable pub nvs_config_get_u32 : Store → String → Option ℕ
  nvs_config_get_u32 s key = if open_read s then get_u32 s key else none

  unfoldable pub nvs_config_set_u32 : Store → String → ℕ → Bool × Store
  nvs_config_set_u32 s key val = if open_write s then commit_if (set_u32 s key val) else (false, s)

  abbrev count_or_zero : Option ℕ → ℕ
  count_or_zero none = 0
  count_or_zero (some count) = count

  unfoldable pub nvs_config_incr_restart_count : Store → ℕ × Store
  unfolding nvs_config_get_u32 nvs_config_set_u32
  nvs_config_incr_restart_count s =
      let count = u32 (count_or_zero (nvs_config_get_u32 s "restart_count") + 1) in
      (count, (nvs_config_set_u32 s "restart_count" count).1)

  unfoldable pub nvs_config_is_provisioned : Store → Bool
  unfolding nvs_config_get_str
  nvs_config_is_provisioned s = is_some (nvs_config_get_str s "device_id" 16)

  unfoldable pub nvs_config_get_device_id : Store → ℕ → Option (List ℕ)
  unfolding nvs_config_get_str
  nvs_config_get_device_id s max_len = nvs_config_get_str s "device_id" max_len

  unfoldable pub nvs_config_get_device_type : Store → ℕ → Option (List ℕ)
  unfolding nvs_config_get_str
  nvs_config_get_device_type s max_len = nvs_config_get_str s "device_type" max_len

  unfoldable pub nvs_config_get_wifi_ssid : Store → ℕ → Option (List ℕ)
  unfolding nvs_config_get_str
  nvs_config_get_wifi_ssid s max_len = nvs_config_get_str s "wifi_ssid" max_len

  unfoldable pub nvs_config_get_wifi_password : Store → ℕ → Option (List ℕ)
  unfolding nvs_config_get_str
  nvs_config_get_wifi_password s max_len = nvs_config_get_str s "wifi_password" max_len

  abbrev url_or : ℕ → Option (List ℕ) → List ℕ
  url_or max_len none = take (max_len - 1) default_url
  url_or max_len (some url) = url

  unfoldable pub nvs_config_get_server_url : Store → ℕ → List ℕ
  unfolding nvs_config_get_str default_url
  nvs_config_get_server_url s max_len = url_or max_len (nvs_config_get_str s "server_url" max_len)
