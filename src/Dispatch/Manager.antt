-- ===== src/Dispatch/Manager.antt =====
-- The watch over the connection in `connection_manager_task` of esp32-firmware/main/main.c: a round
-- for each answer of `ykp_ws_is_connected`, every two seconds. `none` is `esp_restart`.
use iot_yk.Base.{◌≤◌, sym}
use iot_yk.Base.{
  ℕ, zero, suc, ◌+◌, ◌≡◌, refl, ◌∙◌, Bool, true, false, not, ◌&&◌, ◌||◌, Option, none, some, List,
  [], ◌∷◌, leb, if◌then◌else◌, leb-true, leb-false, arith,
}
use iot_yk.Base.Bytes.{u32}

abbrev pub max_fails : ℕ
max_fails = 90

unfoldable pub watch_round : Bool → ℕ → Option ℕ
watch_round true fail_count = some 0
watch_round false fail_count =
    let fails = u32 (fail_count + 1) in if leb max_fails fails then none else some fails

unfoldable pub watch : ℕ → List Bool → Option ℕ
watch fail_count [] = some fail_count
watch fail_count (connected ∷ answers) = elim (watch_round connected fail_count) [
  | none ↦ none
  | some fails ↦ watch fails answers
]

abbrev pub is_restart : Option ℕ → Bool
is_restart none = true
is_restart (some fails) = false

-- The first `n` answers are there, and all false.
unfoldable pub starts_off : ℕ → List Bool → Bool
starts_off zero answers = true
starts_off (suc n) [] = false
starts_off (suc n) (connected ∷ answers) = not connected && starts_off n answers

-- Somewhere in the answers `n` in a row are false.
unfoldable pub some_row : ℕ → List Bool → Bool
some_row n [] = starts_off n []
some_row n (connected ∷ answers) = starts_off n (connected ∷ answers) || some_row n answers

or_absorbs : (a b : Bool) → (a ≡ true → b ≡ true) → (a || b) ≡ b
or_absorbs true b h = sym (h refl)
or_absorbs false b h = refl

or_middle : (a b c : Bool) → (b ≡ true → a ≡ true) → (a || c) ≡ (a || (b || c))
or_middle true b c h = refl
or_middle false true c h = ground arith
or_middle false false c h = refl

starts_off-some_row :
    (n : ℕ) (answers : List Bool) → starts_off n answers ≡ true → some_row n answers ≡ true
unfolding some_row
starts_off-some_row n [] e = e
starts_off-some_row n (connected ∷ answers) e = rw e

starts_off-less :
    (m n : ℕ) (answers : List Bool)
    → n ≤ m
    → starts_off m answers ≡ true
    → starts_off n answers ≡ true
unfolding starts_off
starts_off-less m zero answers h e = refl
starts_off-less zero (suc n) answers h e = absurd (omega arith)
starts_off-less (suc m) (suc n) [] h e = e
starts_off-less (suc m) (suc n) (true ∷ answers) h e = e
starts_off-less (suc m) (suc n) (false ∷ answers) h e = starts_off-less m n answers (omega arith) e

-- With `suc n` failures to go.
watch-some_row :
    (fails n : ℕ) (answers : List Bool)
    → fails + suc n ≡ 90
    → is_restart (watch fails answers) ≡ (starts_off (suc n) answers || some_row 90 answers)
unfolding watch watch_round starts_off some_row
watch-some_row fails n [] h = refl
watch-some_row fails n (true ∷ answers) h =
    watch-some_row 0 89 answers refl
    ∙ or_absorbs (starts_off 90 answers) (some_row 90 answers) (starts_off-some_row 90 answers)
watch-some_row fails zero (false ∷ answers) h =
    let full : leb max_fails (u32 (fails + 1)) ≡ true =
      leb-true max_fails (u32 (fails + 1)) (omega arith) in
    rw (full, is_restart)
watch-some_row fails (suc n) (false ∷ answers) h =
    let next : u32 (fails + 1) ≡ fails + 1 = omega arith in
    let short = leb-false max_fails (fails + 1) (omega arith) in
    rw (next, short, is_restart)
      (watch-some_row (fails + 1) n answers (omega arith)
        ∙ or_middle (starts_off (suc n) answers) (starts_off 89 answers) (some_row 90 answers)
            (starts_off-less 89 (suc n) answers (omega arith)))

-- The device restarts if and only if 90 answers in a row, three minutes at one every two seconds,
-- said that the WebSocket is not connected.
pub watch-restarts : (answers : List Bool) → is_restart (watch 0 answers) ≡ some_row 90 answers
watch-restarts answers =
    watch-some_row 0 89 answers refl
    ∙ or_absorbs (starts_off 90 answers) (some_row 90 answers) (starts_off-some_row 90 answers)
