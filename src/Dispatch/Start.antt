-- ===== src/Dispatch/Start.antt =====
-- The start of esp32-firmware/main/main.c as far as the stored configuration decides it: `app_main` up to
-- the reading of the server's address, and the first calls of `connection_manager_task`. Also what a
-- commit of the provisioning leaves in the store.
use iot_yk.Base.{ℕ, Bool, true, false, not, ◌&&◌, Option, none, some, List, [], ◌∷◌, if◌then◌else◌}
use iot_yk.Nvs.{
  Nvs, nvs_config_set_str, nvs_config_set_u32, nvs_config_incr_restart_count,
  nvs_config_get_device_id, nvs_config_get_device_type, nvs_config_get_wifi_ssid,
  nvs_config_get_wifi_password, nvs_config_get_server_url,
}
use iot_yk.Wifi.{Wifi, WifiCall, wifi_manager_register_callbacks, wifi_manager_connect_async}
use iot_yk.Provision.Session.{Act}

-- What runs, with the texts read and the calls of the WiFi driver.
pub record Running : Type 0 where
  pub device_id : List ℕ
  pub device_type : List ℕ
  pub server_url : List ℕ
  pub wifi : Wifi
  pub calls : List WifiCall

pub data Boot : Type 0 where
  ble_mode : Boot
  running : Running → Boot

abbrev is_some : Option (List ℕ) → Bool
is_some none = false
is_some (some text) = true

abbrev text_or_empty : Option (List ℕ) → List ℕ
text_or_empty none = []
text_or_empty (some text) = text

module _ (nvs : Nvs) where
  -- The arrays have 9, 16, 64, 64 and 128 bytes.
  unfoldable pub load : nvs.Store → Wifi → Running
  unfolding nvs_config_get_device_id nvs_config_get_device_type nvs_config_get_wifi_ssid
      nvs_config_get_wifi_password nvs_config_get_server_url
  load s w =
      let ssid = text_or_empty (nvs_config_get_wifi_ssid nvs s 64) in
      let password = text_or_empty (nvs_config_get_wifi_password nvs s 64) in
      let connecting = wifi_manager_connect_async ssid password w in
      record {
        device_id = text_or_empty (nvs_config_get_device_id nvs s 9);
        device_type = text_or_empty (nvs_config_get_device_type nvs s 16);
        server_url = nvs_config_get_server_url nvs s 128;
        wifi = connecting.0;
        calls = connecting.1;
      }

  -- `ble_starts` is the answer of `ykp_ble_provision_start`.
  unfoldable pub boot : Bool → nvs.Store → Wifi → Boot
  unfolding load nvs_config_incr_restart_count
  boot ble_starts s w =
      let s' = (nvs_config_incr_restart_count nvs s).1 in
      let w' = wifi_manager_register_callbacks true true w in
      let is_provisioned =
        is_some (nvs_config_get_device_id nvs s' 9)
        && is_some (nvs_config_get_wifi_ssid nvs s' 64)
        && is_some (nvs_config_get_wifi_password nvs s' 64) in
      if not is_provisioned && ble_starts then ble_mode else running (load s' w')

  -- What the calls of the provisioning leave in the store.
  unfoldable pub apply_acts : List Act → nvs.Store → nvs.Store
  apply_acts [] s = s
  apply_acts (Act.nvs_set_str key text ∷ acts) s =
      apply_acts acts (nvs_config_set_str nvs s key text).1
  apply_acts (Act.nvs_set_u32 key val ∷ acts) s =
      apply_acts acts (nvs_config_set_u32 nvs s key val).1
  apply_acts (Act.notify notice ∷ acts) s = apply_acts acts s
  apply_acts (Act.create_task task ∷ acts) s = apply_acts acts s
  apply_acts (Act.connect_wifi ssid psk ∷ acts) s = apply_acts acts s
  apply_acts (Act.scan_wifi ∷ acts) s = apply_acts acts s
  apply_acts (Act.advertise ∷ acts) s = apply_acts acts s
  apply_acts (Act.restart ∷ acts) s = apply_acts acts s
