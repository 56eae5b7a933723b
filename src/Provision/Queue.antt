-- ===== src/Provision/Queue.antt =====
-- The queue of four messages between `gatt_svr_chr_access` and `json_task` of
-- esp32-firmware/main/config/ble_provision.c, as a sequence of writes and of rounds of the task.
use iot_yk.Base.{
  ℕ, zero, suc, ◌≤◌, ◌<◌, ◌≡◌, refl, ap, ◌∙◌, true, false, List, [], ◌∷◌, ◌++◌, ltb, length,
  length-append, arith,
}
use mathlib.Core.List.{append_assoc}
use iot_yk.Base.{lt→ltb, ltb-false}
use iot_yk.Base.Bytes.{Run, done, ◌>>=◌, take_all}
use iot_yk.Provision.{Rx, Output, gatt_write, queue_send, json_round, json_task}

-- The phone writes, or the task asks the queue for a message.
pub data Turn : Type 0 where
  write : List ℕ → Turn
  serve : Turn

-- The BLE stack and the task by turns. The task waits on an empty queue.
unfoldable pub run_turns : List Turn → List (List ℕ) → Rx → Run (List Output × Rx)
run_turns [] queue rx = done ([], rx)
run_turns (write bytes ∷ turns) queue rx = run_turns turns (gatt_write true bytes queue) rx
run_turns (serve ∷ turns) [] rx = run_turns turns [] rx
run_turns (serve ∷ turns) (msg ∷ queue) rx = json_round rx msg >>= λ first.
    run_turns turns queue first.1 >>= λ later. done (first.0 ∷ later.0, later.1)

-- The messages that the task takes.
abbrev served : List Turn → List (List ℕ) → List (List ℕ)
served [] queue = []
served (write bytes ∷ turns) queue = served turns (gatt_write true bytes queue)
served (serve ∷ turns) [] = served turns []
served (serve ∷ turns) (msg ∷ queue) = msg ∷ served turns queue

-- What the phone writes, in order.
abbrev pub written : List Turn → List (List ℕ)
written [] = []
written (write bytes ∷ turns) = bytes ∷ written turns
written (serve ∷ turns) = written turns

-- From `n` messages in the queue: no write finds four there, and none is left at the end.
abbrev pub Paced : ℕ → List Turn → Type 0
Paced n [] = n ≡ 0
Paced n (write bytes ∷ turns) = (n < 4) × Paced (suc n) turns
Paced zero (serve ∷ turns) = Paced zero turns
Paced (suc n) (serve ∷ turns) = Paced n turns

abbrev pub FitsAll : List (List ℕ) → Type 0
FitsAll [] = Unit
FitsAll (xs ∷ xss) = (0 < length xs) × (length xs ≤ 512) × FitsAll xss

run_turns-served :
    (turns : List Turn) (queue : List (List ℕ)) (rx : Rx)
    → run_turns turns queue rx ≡ json_task rx (served turns queue)
unfolding run_turns json_task
run_turns-served [] queue rx = refl
run_turns-served (write bytes ∷ turns) queue rx =
    run_turns-served turns (gatt_write true bytes queue) rx
run_turns-served (serve ∷ turns) [] rx = run_turns-served turns [] rx
run_turns-served (serve ∷ turns) (msg ∷ queue) rx =
    ap
      (λ (f : Rx → Run (List Output × Rx)).
        json_round rx msg >>= λ first. f first.1 >>= λ later. done (first.0 ∷ later.0, later.1))
      (λ i rx'. run_turns-served turns queue rx' i)

gatt_write-fits :
    (xs : List ℕ) (queue : List (List ℕ))
    → 0 < length xs
    → length xs ≤ 512
    → length queue < 4
    → gatt_write true xs queue ≡ queue ++ (xs ∷ [])
unfolding gatt_write queue_send
gatt_write-fits xs queue h k room =
    let some_bytes = lt→ltb 0 (length xs) h in
    let whole : ltb 512 (length xs) ≡ false = ltb-false 512 (length xs) k in
    let free = lt→ltb (length queue) 4 room in
    rw (some_bytes, whole, free) (ap (λ msg. queue ++ (msg ∷ [])) (take_all (length xs) xs refl))

served-written :
    (turns : List Turn) (queue : List (List ℕ)) (n : ℕ)
    → length queue ≡ n
    → Paced n turns
    → FitsAll (written turns)
    → served turns queue ≡ queue ++ written turns
served-written [] [] n e paced fits = refl
served-written [] (msg ∷ queue) n e paced fits = absurd (omega (arith, e, paced))
served-written (write bytes ∷ turns) queue n e paced fits =
    let more = length-append {0} queue (bytes ∷ []) in
    let rest =
      served-written turns (queue ++ (bytes ∷ [])) (suc n) (omega (arith, more, e)) paced.1
        fits.2 in
    rw (gatt_write-fits bytes queue fits.0 fits.1 (omega (arith, e, paced.0)))
      (rest ∙ append_assoc queue (bytes ∷ []) (written turns))
served-written (serve ∷ turns) [] zero e paced fits = served-written turns [] zero refl paced fits
served-written (serve ∷ turns) [] (suc n) e paced fits = absurd (omega (arith, e))
served-written (serve ∷ turns) (msg ∷ queue) zero e paced fits = absurd (omega (arith, e))
served-written (serve ∷ turns) (msg ∷ queue) (suc n) e paced fits =
    ap (◌∷◌ msg) (served-written turns queue n (omega (arith, e)) paced fits)

-- Nothing is lost where the writes keep to the pace.
pub run_turns-written :
    (turns : List Turn) (rx : Rx)
    → Paced 0 turns
    → FitsAll (written turns)
    → run_turns turns [] rx ≡ json_task rx (written turns)
run_turns-written turns rx paced fits =
    run_turns-served turns [] rx ∙ ap (json_task rx) (served-written turns [] 0 refl paced fits)
