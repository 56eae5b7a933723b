-- ===== src/Relay/Pins.antt =====
-- The pins follow the relay's state, whatever commands and button presses come; relay_service.c.
use iot_yk.Io.{server_name}
use iot_yk.Io.{gpio_button_input}
use iot_yk.Base.{
  ℕ, ◌^◌, ◌<◌, ◌≡◌, refl, ◌∙◌, Bool, not, List, [], ◌∷◌, ◌++◌, ◌==◌, if◌then◌else◌, Bool-cases,
  Option-cases, inl, inr, arith,
}
use iot_yk.Base.Bytes.{Run, done, ◌>>=◌}
use iot_yk.Session.{Session, next_packet_id}
use iot_yk.Report.{Memory}
use iot_yk.Report.Found.{IsMemory}
use iot_yk.Io.{Effect, send_some, gpio_intr_enable}
use iot_yk.Relay.{
  Relay, set_levels, notify_ble_sync, report_state, handle, press, button_debounce_timer_callback,
}
use iot_yk.Relay.Acks.{new_state, changes, handle_lem, send_ack-total}
use iot_yk.Relay.Levels.{
  pin_level, pin_level-append, pin_level-send_some, pin_level-notify, Shows, levels_after,
  changes-Shows,
}

module _ (mem : Memory) (w : IsMemory 64 256 mem) where
  pub report_state-total :
      (ble : Bool) (packet_id session_id : ℕ) (dest_id : List ℕ) (r : Relay) (before : List Effect)
      → packet_id < 2 ^ 32
      → session_id < 2 ^ 32
      → (made : List Effect) × (report_state mem ble packet_id session_id dest_id r before
          ≡ done (r, made))
        × ((pin level : ℕ) → pin_level pin level made ≡ pin_level pin level before)
  unfolding report_state
  report_state-total ble packet_id session_id dest_id r before h k =
      let (raw, e) = send_ack-total mem w r packet_id session_id dest_id h k in
      (
        before ++ (send_some r.has_send raw ++ notify_ble_sync ble r),
        rw e,
        λ pin level.
            pin_level-append pin level before (send_some r.has_send raw ++ notify_ble_sync ble r)
            ∙ (pin_level-append pin _ (send_some r.has_send raw) (notify_ble_sync ble r)
                ∙ (pin_level-notify pin _ ble r ∙ pin_level-send_some pin _ r.has_send raw)),
      )

  pub handle-total :
      (ble : Bool) (action_id packet_id session_id : ℕ) (dest_id : List ℕ) (r : Relay)
      (level : ℕ → ℕ)
      → packet_id < 2 ^ 32
      → session_id < 2 ^ 32
      → Shows r.state level
      → (r' : Relay) × (made : List Effect) × (handle mem ble action_id packet_id session_id dest_id
            r
          ≡ done (r', made))
        × Shows r'.state (levels_after level made)
  unfolding pin_level
  handle-total ble action_id packet_id session_id dest_id r level h k shown =
      elim (Option-cases (new_state action_id r.state)) [
        | inl unknown ↦
            (r, [], handle_lem mem ble action_id packet_id session_id dest_id r ∙ rw unknown, shown)
        | inr (state, known) ↦
            let r' = record r { state = state } in
            let (made, e, same) =
              report_state-total ble packet_id session_id dest_id r' (changes action_id state) h
                k in
            let now = changes-Shows action_id r.state state level known shown in
            (
              r',
              made,
              handle_lem mem ble action_id packet_id session_id dest_id r ∙ rw known e,
              (same _ _ ∙ now.0, same _ _ ∙ now.1),
            )
      ]

  press-total :
      (ble : Bool) (time_us : ℕ) (s : Session) (r : Relay) (level : ℕ → ℕ)
      → s.session_id < 2 ^ 32
      → (s' : Session) × (r' : Relay) × (made : List Effect) × (press mem ble time_us s r
          ≡ done (s', r', made))
        × (s'.session_id ≡ s.session_id)
        × Shows r'.state (levels_after level made)
  unfolding press next_packet_id pin_level
  press-total ble time_us s r level h =
      let r' = record r { state = not r.state } in
      let (counted, s') = next_packet_id time_us s in
      let pkt_id = if r.has_session then counted else 0 in
      let sess_id = if r.has_session then s'.session_id else 0 in
      let small : pkt_id < 2 ^ 32 = elim (Bool-cases r.has_session) [
        | inl a ↦ rw a (omega arith)
        | inr a ↦ rw a (omega arith)
      ] in
      let fits : sess_id < 2 ^ 32 = elim (Bool-cases r.has_session) [
        | inl a ↦ rw a h
        | inr a ↦ rw a (omega arith)
      ] in
      let (made, e, same) =
        report_state-total ble pkt_id sess_id server_name r' (set_levels r'.state) small fits in
      (
        if r.has_session then s' else s,
        r',
        made,
        rw e,
        elim (Bool-cases r.has_session) [ inl a ↦ rw a | inr a ↦ rw a ],
        (same _ _, same _ _),
      )

-- What happens to the relay: a command, or the end of the button's debounce time.
pub data Event : Type 0 where
  command : Bool → ℕ → ℕ → ℕ → List ℕ → Event
  button : Bool → ℕ → ℕ → Event

-- The ids of a command are 32-bit numbers.
abbrev pub AreEvents : List Event → Type 0
AreEvents [] = Unit {0}
AreEvents (command ble action_id packet_id session_id dest_id ∷ es) =
    (packet_id < 2 ^ 32) × (session_id < 2 ^ 32) × AreEvents es
AreEvents (button ble level time_us ∷ es) = AreEvents es

unfoldable pub step : Memory → Event → Session → Relay → Run (Session × Relay × List Effect)
step mem (command ble action_id packet_id session_id dest_id) s r =
    handle mem ble action_id packet_id session_id dest_id r >>= λ (r', made). done (s, r', made)
step mem (button ble level time_us) s r = button_debounce_timer_callback mem ble level time_us s r

unfoldable pub run : Memory → List Event → Session → Relay → Run (Session × Relay × List Effect)
run mem [] s r = done (s, r, [])
run mem (e ∷ es) s r = do
  (s', r', made) ← step mem e s r
  (s'', r'', more) ← run mem es s' r'
  done (s'', r'', made ++ more)

-- The outcome of events that the pins follow.
abbrev pub Follows : (ℕ → ℕ) → Session → Run (Session × Relay × List Effect) → Type 0
Follows level s result =
    (s' : Session) × (r' : Relay) × (made : List Effect) × (result ≡ done (s', r', made))
    × (s'.session_id ≡ s.session_id)
    × Shows r'.state (levels_after level made)

module _ (mem : Memory) (w : IsMemory 64 256 mem) where
  callback-Follows :
      (ble : Bool) (level time_us : ℕ) (s : Session) (r : Relay) (levels : ℕ → ℕ)
      → s.session_id < 2 ^ 32
      → Shows r.state levels
      → Follows levels s (button_debounce_timer_callback mem ble level time_us s r)
  unfolding button_debounce_timer_callback pin_level
  callback-Follows ble level time_us s r levels h shown = elim (Bool-cases (level == 0)) [
    | inr up ↦ (s, r, gpio_intr_enable gpio_button_input ∷ [], rw up, refl, shown)
    | inl down ↦
        let (s', r', made, e, same, now) = press-total mem w ble time_us s r levels h in
        (
          s',
          r',
          made ++ gpio_intr_enable gpio_button_input ∷ [],
          rw down (rw e),
          same,
          (pin_level-append _ _ made _ ∙ now.0, pin_level-append _ _ made _ ∙ now.1),
        )
  ]

  step-Follows :
      (e : Event) (es : List Event) (s : Session) (r : Relay) (levels : ℕ → ℕ)
      → AreEvents (e ∷ es)
      → s.session_id < 2 ^ 32
      → Shows r.state levels
      → Follows levels s (step mem e s r) × AreEvents es
  unfolding step
  step-Follows (command ble action_id packet_id session_id dest_id) es s r levels v h shown =
      let (r', made, e, now) =
        handle-total mem w ble action_id packet_id session_id dest_id r levels v.0 v.1 shown in
      ((s, r', made, rw e, refl, now), v.2)
  step-Follows (button ble level time_us) es s r levels v h shown =
      (callback-Follows ble level time_us s r levels h shown, v)

  -- Where the relay's pin and the status LED are at the level of the relay's state, and the buffers
  -- are as the declarations size them, then any row of commands and button events, with 32-bit ids,
  -- runs without a fault, with and without room on the heap, and both pins are at the level of the
  -- relay's state again.
  pub run-Follows :
      (es : List Event) (s : Session) (r : Relay) (levels : ℕ → ℕ)
      → AreEvents es
      → s.session_id < 2 ^ 32
      → Shows r.state levels
      → Follows levels s (run mem es s r)
  unfolding run pin_level
  run-Follows [] s r levels v h shown = (s, r, [], refl, refl, shown)
  run-Follows (e ∷ es) s r levels v h shown =
      let ((s', r', made, q, same, now), v') = step-Follows e es s r levels v h shown in
      let (s'', r'', more, q', same', now') =
        run-Follows es s' r' (levels_after levels made) v' (omega (arith, same)) now in
      (
        s'',
        r'',
        made ++ more,
        rw q (rw q'),
        same' ∙ same,
        (pin_level-append _ _ made more ∙ now'.0, pin_level-append _ _ made more ∙ now'.1),
      )
