-- ===== src/Wifi/Examples.antt =====
-- Tests of the WiFi manager's model, and the theorem at a concrete input.
use iot_yk.Base.{◌≡◌, refl, true, some, List, [], ◌∷◌, ◌++◌, length, take, arith}
use iot_yk.Base.Bytes.{done}
use iot_yk.Io.{codes}
use iot_yk.Wifi.Scan.{Network, entries, spelled, digits, wifi_manager_scan, wifi_manager_scan-lists}

abbrev one : List Network
one = record { ssid = b'h' ∷ []; rssi = 210 } ∷ []

wifi_manager_scan-lists_example :
    wifi_manager_scan 1280 (some (record { ssid = b'a' ∷ []; rssi = 200 } ∷ one)) true
    ≡ done (
      (codes "{\"scan_results\":["
            ++ entries (take 10 (record { ssid = b'a' ∷ []; rssi = 200 } ∷ one)))
          ++ b']' ∷ b'}' ∷ [],
      length (take 10 (record { ssid = b'a' ∷ []; rssi = 200 } ∷ one)),
    )
wifi_manager_scan-lists_example =
    wifi_manager_scan-lists 1280 (record { ssid = b'a' ∷ []; rssi = 200 }) one (omega arith)
      (omega arith) (omega arith)

one_text : entries one ≡ codes "{\"ssid\":\"h\",\"rssi\":-46}"
unfolding spelled codes digits
one_text = refl
