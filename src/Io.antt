-- ===== src/Io.antt =====
-- The calls that the firmware's services make of drivers and of their send function, as values in
-- the order of the calls; esp32-firmware/main/services and config/device_config.h.
use Prim.Native.Char.{code}
use Prim.Native.String.{String}
use iot_yk.Base.{
  arith, ◌≡◌, ◌<◌, true, false, refl, ap, ◌++◌, ℕ, Bool, List, [], ◌∷◌, ◌==◌, ◌&&◌, if◌then◌else◌,
  length, not,
}

abbrev pub gpio_relay_output : ℕ
gpio_relay_output = 4

abbrev pub gpio_status_led : ℕ
gpio_status_led = 2

abbrev pub gpio_button_input : ℕ
gpio_button_input = 0

abbrev pub gpio_pir_motion : ℕ
gpio_pir_motion = 18

pub data Mode : Type 0 where
  input output : Mode

pub data Interrupt : Type 0 where
  never falling_edge : Interrupt

pub record PinConfig : Type 0 where
  pub pins : List ℕ
  pub mode : Mode
  pub pull_up : Bool
  pub interrupt : Interrupt

pub data Effect : Type 0 where
  gpio_config : PinConfig → Effect
  gpio_set_level : ℕ → ℕ → Effect
  gpio_intr_enable : ℕ → Effect
  gpio_intr_disable : ℕ → Effect
  timer_create : ℕ → Bool → Effect
  timer_start : Effect
  install_isr_service : Effect
  isr_handler_add : ℕ → Effect
  send : List ℕ → Effect
  ble_notify : String → Effect

-- `if (raw_len > 0 && s_send) s_send(raw, raw_len)`
unfoldable pub send_some : Bool → List ℕ → List Effect
send_some has_send raw = if not (length raw == 0) && has_send then send raw ∷ [] else []

-- The bytes of an ASCII text.
unfoldable pub codes : String → List ℕ
codes String.[] = []
codes (String.◌∷◌ c s) = code c ∷ codes s

-- A C string in an array: what stands before the first zero.
unfoldable pub c_string : List ℕ → List ℕ
c_string [] = []
c_string (c ∷ cs) = let rest = c_string cs in if c == 0 then [] else c ∷ rest

-- "SERVER"
abbrev pub server_name : List ℕ
server_name = 83 ∷ 69 ∷ 82 ∷ 86 ∷ 69 ∷ 82 ∷ []

-- `YKP_FIRMWARE_VERSION`, "1.2.1"
abbrev pub firmware_version : List ℕ
firmware_version = 49 ∷ 46 ∷ 50 ∷ 46 ∷ 49 ∷ []

pub send_some-sent :
    (has_send : Bool) (raw : List ℕ)
    → has_send ≡ true
    → 0 < length raw
    → send_some has_send raw ≡ send raw ∷ []
unfolding send_some
send_some-sent has_send raw e h = ground arith

-- No zero, which would end a C string.
abbrev pub NoZero : List ℕ → Type 0
NoZero [] = Unit
NoZero (x ∷ xs) = ((x == 0) ≡ false) × NoZero xs

pub c_string-append : (xs post : List ℕ) → NoZero xs → c_string (xs ++ 0 ∷ post) ≡ xs
unfolding c_string
c_string-append [] post h = refl
c_string-append (x ∷ xs) post h = rw h.0 (ap (◌∷◌ x) (c_string-append xs post h.1))
