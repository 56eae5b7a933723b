-- ===== src/Relay/Levels.antt =====
-- The levels of the pins after calls of the GPIO driver, in
-- esp32-firmware/main/services/relay_service.c.
use iot_yk.Base.{◌&&◌}
use iot_yk.Base.{
  ℕ, zero, suc, ◌≡◌, refl, Bool, true, false, not, some, List, [], ◌∷◌, ◌++◌, length, ◌==◌,
  if◌then◌else◌, Bool-cases, inl, inr, arith,
}
use iot_yk.Io.{
  Effect, send_some, gpio_set_level, gpio_config, gpio_intr_enable, gpio_intr_disable, timer_create,
  timer_start, install_isr_service, isr_handler_add, send, ble_notify, gpio_relay_output,
  gpio_status_led,
}
use iot_yk.Relay.{Relay, level_of, notify_ble_sync}
use iot_yk.Relay.Acks.{new_state, changes}

-- The level of a pin after a row of calls, from the level before.
unfoldable pub pin_level : ℕ → ℕ → List Effect → ℕ
pin_level pin level [] = level
pin_level pin level (gpio_set_level p l ∷ es) =
    if p == pin then pin_level pin l es else pin_level pin level es
pin_level pin level (e ∷ es) = pin_level pin level es

pub pin_level-append :
    (pin level : ℕ) (es fs : List Effect)
    → pin_level pin level (es ++ fs) ≡ pin_level pin (pin_level pin level es) fs
unfolding pin_level
pin_level-append pin level [] fs = refl
pin_level-append pin level (gpio_set_level p l ∷ es) fs = elim (Bool-cases (p == pin)) [
  | inl hit ↦ rw hit (pin_level-append pin l es fs)
  | inr miss ↦ rw miss (pin_level-append pin level es fs)
]
pin_level-append pin level (gpio_config c ∷ es) fs = pin_level-append pin level es fs
pin_level-append pin level (gpio_intr_enable c ∷ es) fs = pin_level-append pin level es fs
pin_level-append pin level (gpio_intr_disable c ∷ es) fs = pin_level-append pin level es fs
pin_level-append pin level (timer_create c d ∷ es) fs = pin_level-append pin level es fs
pin_level-append pin level (timer_start ∷ es) fs = pin_level-append pin level es fs
pin_level-append pin level (install_isr_service ∷ es) fs = pin_level-append pin level es fs
pin_level-append pin level (isr_handler_add c ∷ es) fs = pin_level-append pin level es fs
pin_level-append pin level (send c ∷ es) fs = pin_level-append pin level es fs
pin_level-append pin level (ble_notify c ∷ es) fs = pin_level-append pin level es fs

pub pin_level-send_some :
    (pin level : ℕ) (has_send : Bool) (raw : List ℕ)
    → pin_level pin level (send_some has_send raw) ≡ level
unfolding pin_level send_some
pin_level-send_some pin level has_send raw = elim (Bool-cases (not (length raw == 0) && has_send)) [
  | inl a ↦ rw a
  | inr a ↦ rw a
]

pub pin_level-notify :
    (pin level : ℕ) (ble : Bool) (r : Relay) → pin_level pin level (notify_ble_sync ble r) ≡ level
unfolding pin_level notify_ble_sync
pin_level-notify pin level true r = refl
pin_level-notify pin level false r = refl

-- Both pins are at the level of a state.
abbrev pub Shows : Bool → (ℕ → ℕ) → Type 0
Shows state level =
    (level gpio_relay_output ≡ level_of state) × (level gpio_status_led ≡ level_of state)

-- The levels after a row of calls.
abbrev pub levels_after : (ℕ → ℕ) → List Effect → ℕ → ℕ
levels_after level es pin = pin_level pin (level pin) es

pub changes-Shows :
    (action_id : ℕ) (before state : Bool) (level : ℕ → ℕ)
    → new_state action_id before ≡ some state
    → Shows before level
    → Shows state (levels_after level (changes action_id state))
unfolding pin_level
changes-Shows zero before state level e shown = ground arith
changes-Shows (suc zero) before state level e shown = (refl, refl)
changes-Shows (suc (suc zero)) before state level e shown = (refl, refl)
changes-Shows (suc (suc (suc zero))) before state level e shown = (refl, refl)
changes-Shows (suc (suc (suc (suc zero)))) before state level e shown =
    let same : before ≡ state = cc in rw (← same) shown
changes-Shows (suc (suc (suc (suc (suc n))))) before state level e shown = ground arith
