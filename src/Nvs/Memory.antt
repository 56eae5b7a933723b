-- ===== src/Nvs/Memory.antt =====
-- A store in memory, for the tests: it keeps what NVS promises of texts.
use Prim.Native.String.{String}
use text.Mathlib.Text.{◌==◌ as str_eq}
use iot_yk.Base.{
  ℕ, ◌≡◌, refl, Bool, true, false, Option, none, some, List, ltb, if◌then◌else◌, length,
}
use iot_yk.Nvs.{Nvs}
use iot_yk.Nvs.Stored.{Stores}

abbrev fits : ℕ → Option (List ℕ) → Option (List ℕ)
fits n none = none
fits n (some text) = if ltb (length text) n then some text else none

abbrev pub memory_nvs : Nvs
memory_nvs = record {
  Store = String → Option (List ℕ);
  open_read = λ s. true;
  open_write = λ s. true;
  get_str = λ s key n. fits n (s key);
  set_str = λ s key text. (true, λ j. if str_eq key j then some text else s j);
  get_blob = λ s key n. none;
  set_blob = λ s key text. (false, s);
  get_u32 = λ s key. none;
  set_u32 = λ s key val. (true, s);
  commit = λ s. s;
}

fits-if :
    (b : Bool) (n : ℕ) (text : List ℕ) (old : Option (List ℕ))
    → fits n (if b then some text else old)
      ≡ (if b then (if ltb (length text) n then some text else none) else fits n old)
fits-if true n text old = refl
fits-if false n text old = refl

pub memory_nvs-Stores : Stores memory_nvs
memory_nvs-Stores = record {
  opens_read = λ s. refl;
  opens_write = λ s. refl;
  set_str_ok = λ s k v. refl;
  set_u32_ok = λ s k v. refl;
  get_set_str = λ s k j v n. fits-if (str_eq k j) n v (s j);
  get_set_u32 = λ s k j v n e. refl;
}
