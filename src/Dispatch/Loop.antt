-- ===== src/Dispatch/Loop.antt =====
-- The loop of `app_main` in esp32-firmware/main/main.c, a round every five seconds, and the event of a
-- WiFi connection.
use iot_yk.Base.{leb-false}
use iot_yk.Base.{
  ℕ, ◌+◌, ◌<◌, ◌≡◌, refl, ◌∙◌, false, ◌&&◌, List, [], ◌∷◌, ◌++◌, leb, if◌then◌else◌, length, arith,
}
use mathlib.Core.List.{append-nil}
use iot_yk.Base.Bytes.{Run, done, fault, ◌>>=◌, u32}
use iot_yk.Session.{is_active, rotation_due}
use iot_yk.Health.{health_service_send_report}
use iot_yk.Dispatch.{World, Platform, Crypto, Output, reset_session, send_hello, service_outputs}

-- `if (ykp_session_is_active(&g_session)) health_service_send_report()`
unfoldable pub report_health : Crypto → Platform → World → Run (World × List Output)
report_health c p w =
    let report =
      health_service_send_report c.float_of (p.stack 256 512) p.metrics w.health >>= λ made.
      done (w, service_outputs p.connected made) in
    if is_active w.session then report else done (w, [])

-- New keys where they are due and the WebSocket is connected.
unfoldable pub rotate : Platform → World → Run (World × List Output)
rotate p w =
    let hello = send_hello p (reset_session w) in
    if rotation_due w.session && p.connected then hello else done (w, [])

-- The round behind the look at the keys; the number is `health_loop_counter`.
unfoldable pub count_round : Crypto → Platform → ℕ → World → Run ((World × ℕ) × List Output)
unfolding report_health
count_round c p counter w =
    let due = report_health c p w >>= λ (w', outs). done ((w', 0), outs) in
    if leb 12 counter then due else done ((w, counter), [])

unfoldable pub main_round : Crypto → Platform → World × ℕ → Run ((World × ℕ) × List Output)
unfolding rotate count_round
main_round c p (w, counter) = rotate p w >>= λ (w', outs).
    count_round c p (u32 (counter + 1)) w' >>= λ (next, more). done (next, outs ++ more)

unfoldable pub main_loop : Crypto → List Platform → World × ℕ → Run ((World × ℕ) × List Output)
unfolding main_round
main_loop c [] s = done (s, [])
main_loop c (p ∷ ps) s = main_round c p s >>= λ (next, outs).
    main_loop c ps next >>= λ (last, more). done (last, outs ++ more)

-- A round before the twelfth, with no new keys due.
quiet_round :
    (c : Crypto) (p : Platform) (w : World) (counter : ℕ)
    → rotation_due w.session ≡ false
    → counter < 11
    → main_round c p (w, counter) ≡ done ((w, counter + 1), [])
unfolding main_round rotate count_round
quiet_round c p w counter e h =
    let next : u32 (counter + 1) ≡ counter + 1 = omega arith in
    let early = leb-false 12 (counter + 1) (omega arith) in rw (e, next, early) refl

abbrev counted_from_zero : World × List Output → Run ((World × ℕ) × List Output)
counted_from_zero (w, outs) = done ((w, 0), outs)

last_round :
    (m : Run (World × List Output))
    → (((m >>= counted_from_zero) >>= λ (next, more). done (next, [] ++ more)) >>= λ (last, outs).
        done (last, outs ++ []))
      ≡ (m >>= counted_from_zero)
last_round fault = refl
last_round (done (w, outs)) = rw (append-nil outs) refl

round_before :
    (m : Run ((World × ℕ) × List Output)) → (m >>= λ (last, more). done (last, [] ++ more)) ≡ m
round_before fault = refl
round_before (done (s, outs)) = refl

twelfth_round :
    (c : Crypto) (p : Platform) (w : World)
    → rotation_due w.session ≡ false
    → main_loop c (p ∷ []) (w, 11) ≡ (report_health c p w >>= counted_from_zero)
unfolding main_loop main_round rotate count_round
twelfth_round c p w e = rw e (last_round (report_health c p w))

loop-reports :
    (c : Crypto) (ps : List Platform) (p : Platform) (w : World) (counter : ℕ)
    → rotation_due w.session ≡ false
    → counter + length ps ≡ 11
    → main_loop c (ps ++ p ∷ []) (w, counter) ≡ (report_health c p w >>= counted_from_zero)
unfolding main_loop
loop-reports c [] p w counter e h =
    let last : counter ≡ 11 = omega arith in rw last (twelfth_round c p w e)
loop-reports c (q ∷ ps) p w counter e h = rw (quiet_round c q w counter e (omega arith)) (
    round_before (main_loop c (ps ++ p ∷ []) (w, counter + 1))
    ∙ loop-reports c ps p w (counter + 1) e (omega arith))

-- In twelve rounds, a minute, with no new keys due, the loop does nothing but make one health report
-- in the last of them, where the session is active, and starts to count again.
pub main_loop-reports :
    (c : Crypto) (ps : List Platform) (p : Platform) (w : World)
    → rotation_due w.session ≡ false
    → length ps ≡ 11
    → main_loop c (ps ++ p ∷ []) (w, 0)
      ≡ (report_health c p w >>= λ (w', outs). done ((w', 0), outs))
main_loop-reports c ps p w e h = loop-reports c ps p w 0 e (omega arith)
