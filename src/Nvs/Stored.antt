-- ===== src/Nvs/Stored.antt =====
-- What NVS of ESP-IDF promises: a value that is set and committed is read again, where the array is
-- large enough, and other keys keep theirs. From this, what esp32-firmware/main/config/nvs_config.c
-- gives its callers.
use iot_yk.Base.{ℕ, ◌≡◌, refl, true, false, none, some, List, ltb, if◌then◌else◌, length}
use Prim.Native.String.{String}
use text.Mathlib.Text.{◌==◌ as str_eq}
use iot_yk.Nvs.{Nvs, nvs_config_get_str, nvs_config_set_str, nvs_config_set_u32}

-- The namespace opens, the partition has room, and values come back.
pub record Stores (nvs : Nvs) : Type 0 where
  pub opens_read : (s : nvs.Store) → nvs.open_read s ≡ true
  pub opens_write : (s : nvs.Store) → nvs.open_write s ≡ true
  pub set_str_ok : (s : nvs.Store) (k : String) (v : List ℕ) → (nvs.set_str s k v).0 ≡ true
  pub set_u32_ok : (s : nvs.Store) (k : String) (v : ℕ) → (nvs.set_u32 s k v).0 ≡ true
  pub get_set_str :
      (s : nvs.Store) (k j : String) (v : List ℕ) (n : ℕ)
      → nvs.get_str (nvs.commit (nvs.set_str s k v).1) j n
        ≡ (if str_eq k j then (if ltb (length v) n then some v else none) else nvs.get_str s j n)
  pub get_set_u32 :
      (s : nvs.Store) (k j : String) (v n : ℕ)
      → str_eq k j ≡ false
      → nvs.get_str (nvs.commit (nvs.set_u32 s k v).1) j n ≡ nvs.get_str s j n

module _ (nvs : Nvs) (stores : Stores nvs) where
  -- The committed store behind a pair of an answer and a store.
  set_str-committed :
      (s : nvs.Store) (k : String) (v : List ℕ)
      → (nvs_config_set_str nvs s k v).1 ≡ nvs.commit (nvs.set_str s k v).1
  unfolding nvs_config_set_str
  set_str-committed s k v = rw (stores.opens_write s, stores.set_str_ok s k v) refl

  set_u32-committed :
      (s : nvs.Store) (k : String) (v : ℕ)
      → (nvs_config_set_u32 nvs s k v).1 ≡ nvs.commit (nvs.set_u32 s k v).1
  unfolding nvs_config_set_u32
  set_u32-committed s k v = rw (stores.opens_write s, stores.set_u32_ok s k v) refl

  pub get_str-set_str :
      (s : nvs.Store) (k j : String) (v : List ℕ) (n : ℕ)
      → nvs_config_get_str nvs (nvs_config_set_str nvs s k v).1 j n ≡ (
          if str_eq k j
          then (if ltb (length v) n then some v else none)
          else nvs_config_get_str nvs s j n)
  unfolding nvs_config_get_str
  get_str-set_str s k j v n =
      rw
        (
          set_str-committed s k v,
          stores.opens_read (nvs.commit (nvs.set_str s k v).1),
          stores.opens_read s,
        )
        (stores.get_set_str s k j v n)

  pub get_str-set_u32 :
      (s : nvs.Store) (k j : String) (v n : ℕ)
      → str_eq k j ≡ false
      → nvs_config_get_str nvs (nvs_config_set_u32 nvs s k v).1 j n ≡ nvs_config_get_str nvs s j n
  unfolding nvs_config_get_str
  get_str-set_u32 s k j v n e =
      rw
        (
          set_u32-committed s k v,
          stores.opens_read (nvs.commit (nvs.set_u32 s k v).1),
          stores.opens_read s,
        )
        (stores.get_set_u32 s k j v n e)
