-- ===== src/Ota/Examples.antt =====
-- The theorem on updates at the last message of one.
use iot_yk.Base.{arith}
use iot_yk.Ota.Refused.{hash-Refused}
use iot_yk.Base.{false}
use iot_yk.Base.{◌≡◌}
use iot_yk.Ota.{ota_service_is_active}
use iot_yk.Tlv.RoundTrip.{field_of}
use iot_yk.Cbor.Encoding.{head_bytes}
use iot_yk.Tlv.Build.{bytes}
use iot_yk.Tlv.Build.{field_bytes, uint32}
use iot_yk.Tlv.RoundTrip.{entries_bytes, Entries}
use iot_yk.Base.{ℕ, refl, true, some, List, [], ◌∷◌, ◌++◌, take, replicate}
use iot_yk.Base.Looking.{Ensures}
use iot_yk.Report.{Memory}
use iot_yk.Ota.{Ota, Driver, ota_service_handle}
use iot_yk.Ota.Announced.{HoldsHash}
use iot_yk.Ota.Image.{Checked, handle-Checked}

abbrev stack : Memory
stack = record {
  rx_buf = replicate 512 0;
  tlv_buf = replicate 8 0;
  raw = replicate 80 0;
  packet_room = true;
  payload_room = true;
}

abbrev driver : Driver
driver = record {
  partition = true;
  begins = true;
  writes = true;
  ends = true;
  boots = true;
  stack = replicate 32 0;
}

-- A hash for tests: the first 32 bytes.
abbrev first_bytes : List ℕ → List ℕ
first_bytes xs = take 32 (xs ++ replicate 32 0)

abbrev loaded : Ota
loaded = record {
  st = record {
    version = replicate 16 0;
    firmware_size = 2;
    chunk_size = 4096;
    chunks_total = 1;
    sha256 = 5 ∷ 6 ∷ replicate 30 0;
    ecdsa_sig = replicate 64 0;
    active = true;
    next_expected_chunk = 1;
  };
  has_send = true;
  device_id = 76 ∷ [];
  has_partition = true;
  sha_ctx = some (5 ∷ 6 ∷ []);
}

handle-Checked_example :
    Ensures
      (λ r. Checked first_bytes loaded (5 ∷ 6 ∷ []) r × HoldsHash 8 [] 0 0x04 loaded r.0)
      (ota_service_handle stack driver first_bytes 8 [] 0 0x04 loaded)
handle-Checked_example =
    handle-Checked first_bytes stack loaded (5 ∷ 6 ∷ []) driver 8 [] 0 0x04 refl

abbrev start_fields : Entries
start_fields = (0x04, uint32 70000) ∷ (0x0e, bytes (replicate 32 5)) ∷ []

abbrev start_map : List ℕ
start_map = 0xbf ∷ entries_bytes start_fields ++ 0xff ∷ []

hash-Refused_example :
    Ensures
      (λ r. ota_service_is_active r.0 ≡ false)
      (ota_service_handle stack driver first_bytes 43 start_map 43 0x01 loaded)
unfolding entries_bytes field_bytes head_bytes field_of
hash-Refused_example =
    hash-Refused stack driver first_bytes loaded start_fields (replicate 32 5) [] start_map
      (omega arith, omega arith, (omega arith, omega arith, tt)) refl refl refl (omega arith)
