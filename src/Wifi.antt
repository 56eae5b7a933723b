-- ===== src/Wifi.antt =====
-- The WiFi manager, esp32-firmware/main/wifi/wifi_manager.c: its state, the events and the calls of the
-- driver, whose answers are arguments. The event group's two bits are part of the state.
pub mod Scan
mod Examples
use iot_yk.Base.{
  ℕ, ◌-◌, Bool, true, false, ◌||◌, Option, none, some, List, [], ◌∷◌, ◌++◌, ltb, if◌then◌else◌,
  take,
}
use iot_yk.Base.Bytes.{Run, done, fault, ◌>>=◌, strncpy}

pub data WifiState : Type 0 where
  disconnected connecting connected failed : WifiState

-- A callback is registered or not; the bits are WIFI_CONNECTED_BIT and WIFI_FAIL_BIT.
pub record Wifi : Type 0 where
  pub state : WifiState
  pub disconnect_reason : ℕ
  pub on_connect : Bool
  pub on_disconnect : Bool
  pub ip : List ℕ
  pub connected_bit : Bool
  pub fail_bit : Bool
  pub wifi_started : Bool

-- `wifi_config.sta`: the arrays of 32 and 64 bytes.
pub record StaConfig : Type 0 where
  pub ssid : List ℕ
  pub password : List ℕ

pub data WifiEvent : Type 0 where
  sta_start : WifiEvent
  sta_disconnected : ℕ → WifiEvent
  got_ip : List ℕ → WifiEvent
  other_event : WifiEvent

pub data WifiCall : Type 0 where
  set_mode_sta start_wifi set_ps connect_wifi disconnect_wifi scan_start : WifiCall
  set_config : StaConfig → WifiCall
  call_connected : List ℕ → WifiCall
  call_disconnected : ℕ → WifiCall

unfoldable pub wifi_event_handler : WifiEvent → Wifi → Wifi × List WifiCall
wifi_event_handler sta_start w = (w, [])
wifi_event_handler (sta_disconnected reason) w = (
  record w { disconnect_reason = reason; state = failed; fail_bit = true },
  if w.on_disconnect then call_disconnected reason ∷ [] else [],
)
wifi_event_handler (got_ip ip) w =
    let short = take 19 ip in
    (
      record w { ip = short; state = connected; disconnect_reason = 0; connected_bit = true },
      if w.on_connect then call_connected short ∷ [] else [],
    )
wifi_event_handler other_event w = (w, [])

-- `strncpy` of all but the last byte into an array of zeros.
unfoldable pub sta_config : List ℕ → List ℕ → StaConfig
sta_config ssid password = record {
  ssid = strncpy (32 - 1) ssid ++ 0 ∷ [];
  password = strncpy (64 - 1) password ++ 0 ∷ [];
}

abbrev start_once : Wifi → List WifiCall
start_once w = if w.wifi_started then [] else start_wifi ∷ []

unfoldable pub wifi_manager_connect_async : List ℕ → List ℕ → Wifi → Wifi × List WifiCall
unfolding sta_config
wifi_manager_connect_async ssid password w = (
  record w {
    wifi_started = true;
    connected_bit = false;
    fail_bit = false;
    state = connecting;
    disconnect_reason = 0;
  },
  (set_mode_sta ∷ set_config (sta_config ssid password) ∷ start_once w)
      ++ set_ps ∷ connect_wifi ∷ [],
)

-- The events of the driver, until one of the two bits is set or the wait of 30 seconds ends.
unfoldable pub wait_bits : List WifiEvent → Wifi → Wifi × List WifiCall
unfolding wifi_event_handler
wait_bits [] w = (w, [])
wait_bits (e ∷ es) w =
    let first = wifi_event_handler e w in
    let later = wait_bits es first.0 in
    if w.connected_bit || w.fail_bit then (w, []) else (later.0, first.1 ++ later.1)

unfoldable pub wifi_manager_connect :
    List ℕ → List ℕ → List WifiEvent → Wifi → (Wifi × List WifiCall) × Bool
unfolding wifi_manager_connect_async wait_bits
wifi_manager_connect ssid password events w =
    let started = wifi_manager_connect_async ssid password w in
    let waited = wait_bits events started.0 in
    ((waited.0, started.1 ++ waited.1), waited.0.connected_bit)

unfoldable pub wifi_manager_disconnect : Wifi → Wifi × List WifiCall
wifi_manager_disconnect w = (record w { state = disconnected }, disconnect_wifi ∷ [])

unfoldable pub wifi_manager_is_connected : Wifi → Bool
wifi_manager_is_connected w = elim w.state [
  | disconnected ↦ false
  | connecting ↦ false
  | connected ↦ true
  | failed ↦ false
]

unfoldable pub wifi_manager_register_callbacks : Bool → Bool → Wifi → Wifi
wifi_manager_register_callbacks on_connect on_disconnect w = record w {
  on_connect = on_connect;
  on_disconnect = on_disconnect;
}

-- The answer of the driver, as the signal strength's 8 bits.
unfoldable pub wifi_manager_get_rssi : Option ℕ → ℕ
wifi_manager_get_rssi none = 0
wifi_manager_get_rssi (some rssi) = rssi

-- `none` is a scan that does not start; otherwise the number of networks found.
unfoldable pub wifi_manager_scan_for_ssid :
    Option (List ℕ) → Option ℕ → Wifi → (Wifi × List WifiCall) × Bool
wifi_manager_scan_for_ssid none found w = ((w, []), false)
wifi_manager_scan_for_ssid (some []) found w = ((w, []), false)
wifi_manager_scan_for_ssid (some (c ∷ target)) found w = (
  (record w { wifi_started = true }, (set_mode_sta ∷ start_once w) ++ scan_start ∷ []),
  elim found [ none ↦ false | some n ↦ ltb 0 n ],
)
