-- ===== src/LegacyUdp/Key.antt =====
-- The master key of the legacy UDP server, `load_or_derive_keys` of
-- esp32-firmware/main/transport/legacy_udp.c: NVS and the HKDF of PSA are arguments.
use iot_yk.Base.{ℕ, Bool, true, false, Option, none, some, List}
use iot_yk.Io.{codes}

abbrev ikm : List ℕ
ikm = codes "Test_Secret_IKM_Phase1_App"

abbrev salt : List ℕ
salt = codes "Phase1_Salt"

abbrev info : List ℕ
info = codes "UDP_AES_GCM_256"

-- `shared_aes_key` after the call, and the key that is stored, if one is. `stored` is the blob of
-- 32 bytes in the store, and `key` the array before the call.
unfoldable pub load_or_derive_keys :
    Bool → Option (List ℕ) → (List ℕ → List ℕ → List ℕ → List ℕ) → List ℕ → List ℕ × Option (List ℕ)
load_or_derive_keys false stored hkdf key = (key, none)
load_or_derive_keys true none hkdf key = let derived = hkdf salt ikm info in (derived, some derived)
load_or_derive_keys true (some blob) hkdf key = (blob, none)
