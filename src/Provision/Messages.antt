-- ===== src/Provision/Messages.antt =====
-- Lines that a phone cuts into writes, through `gatt_svr_chr_access` and `json_task` of
-- esp32-firmware/main/config/ble_provision.c.
use iot_yk.Base.{ℕ, ◌≤◌, ◌≡◌, refl, ap, List, [], ◌∷◌, ◌++◌, length}
use iot_yk.Base.Bytes.{done}
use iot_yk.Provision.{Rx, Command, Output, quiet, overflow, command}
use iot_yk.Provision.Queue.{Turn, written, Paced, FitsAll, run_turns, run_turns-written}
use iot_yk.Base.{◌∙◌}
use iot_yk.Provision.Buffer.{command_of, Holds}
use iot_yk.Provision.Lines.{receive}
use iot_yk.Provision.Framed.{receive_all, json_task-AllAnswers, concat}
use iot_yk.Provision.OneLine.{Plain, commands, receive_all-line}

-- A line, and the writes that the phone cuts it into.
pub record Sent : Type 0 where
  pub line : List ℕ
  pub writes : List (List ℕ)

pub record IsSent (s : Sent) : Type 0 where
  pub plain : Plain s.line
  pub room : length s.line ≤ 4093
  pub cut_up : concat s.writes ≡ s.line ++ b'\n' ∷ []
  pub fits : FitsAll s.writes

abbrev pub AllSent : List Sent → Type 0
AllSent [] = Unit
AllSent (s ∷ ss) = IsSent s × AllSent ss

abbrev pub all_writes : List Sent → List (List ℕ)
all_writes [] = []
all_writes (s ∷ ss) = s.writes ++ all_writes ss

abbrev pub all_commands : List Sent → List Command
all_commands [] = []
all_commands (s ∷ ss) = command_of s.line ∷ all_commands ss

FitsAll-append : (xss yss : List (List ℕ)) → FitsAll xss → FitsAll yss → FitsAll (xss ++ yss)
FitsAll-append [] yss h k = k
FitsAll-append (xs ∷ xss) yss h k = (h.0, h.1, FitsAll-append xss yss h.2 k)

all_writes-FitsAll : (ss : List Sent) → AllSent ss → FitsAll (all_writes ss)
all_writes-FitsAll [] h = tt
all_writes-FitsAll (s ∷ ss) h =
    FitsAll-append s.writes (all_writes ss) h.0.fits (all_writes-FitsAll ss h.1)

commands-append : (xs ys : List Output) → commands (xs ++ ys) ≡ commands xs ++ commands ys
commands-append [] ys = refl
commands-append (quiet ∷ xs) ys = commands-append xs ys
commands-append (overflow ∷ xs) ys = commands-append xs ys
commands-append (command c ∷ xs) ys = ap (◌∷◌ c) (commands-append xs ys)

receive_all-append :
    (waiting : List ℕ) (xss yss : List (List ℕ))
    → receive_all waiting (xss ++ yss) ≡ (
      (receive_all waiting xss).0 ++ (receive_all (receive_all waiting xss).1 yss).0,
      (receive_all (receive_all waiting xss).1 yss).1,
    )
unfolding receive_all
receive_all-append waiting [] yss = refl
receive_all-append waiting (xs ∷ xss) yss =
    let ih = receive_all-append (receive waiting xs).1 xss yss in rw ih refl

abbrev GivesAll : List Output × List ℕ → List Sent → Type 0
GivesAll (outs, left) ss = (commands outs ≡ all_commands ss) × (left ≡ [])

receive_all-GivesAll : (ss : List Sent) → AllSent ss → GivesAll (receive_all [] (all_writes ss)) ss
unfolding receive_all
receive_all-GivesAll [] h = (refl, refl)
receive_all-GivesAll (s ∷ ss) h =
    let (one, empty) =
      receive_all-line [] s.writes s.line h.0.plain h.0.room s.line refl h.0.cut_up in
    let (more, clear) = receive_all-GivesAll ss h.1 in
    rw
      (
        receive_all-append [] s.writes (all_writes ss),
        empty,
        commands-append (receive_all [] s.writes).0 (receive_all [] (all_writes ss)).0,
        one,
      )
      (ap (◌∷◌ (command_of s.line)) more, clear)

pub record Delivered (rx : Rx) (turns : List Turn) (ss : List Sent) : Type 0 where
  pub outs : List Output
  pub after : Rx
  pub ends : run_turns turns [] rx ≡ done (outs, after)
  pub in_order : commands outs ≡ all_commands ss
  pub holds : Holds [] after

-- Where no byte waits and the queue is empty: lines of up to 4093 bytes, none of them a zero or an
-- end of a line, each cut in any way into writes of 1 to 512 bytes. The writes and the rounds of the
-- task come in any order in which no write finds the queue with its four messages and the queue is
-- empty at the end. Then the lines come out of the task as commands, each once, whole and in order,
-- cut at the first bar; the run ends without a fault, and no byte waits after it.
pub run_turns-Delivered :
    (rx : Rx) (turns : List Turn) (ss : List Sent)
    → Holds [] rx
    → AllSent ss
    → written turns ≡ all_writes ss
    → Paced 0 turns
    → Delivered rx turns ss
run_turns-Delivered rx turns ss h sent same paced =
    let (after, ends, holds) = json_task-AllAnswers rx [] (all_writes ss) h in
    let (in_order, empty) = receive_all-GivesAll ss sent in
    let fits : FitsAll (written turns) = rw same (all_writes-FitsAll ss sent) in
    record {
      outs = (receive_all [] (all_writes ss)).0;
      after = after;
      ends = run_turns-written turns rx paced fits ∙ rw same ends;
      in_order = in_order;
      holds = rw empty at holds;
    }
