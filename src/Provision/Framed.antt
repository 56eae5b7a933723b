-- ===== src/Provision/Framed.antt =====
-- What comes out of `json_task` in esp32-firmware/main/config/ble_provision.c for rows of messages:
-- the lines that the phone wrote, however it cut them.
use iot_yk.Base.{
  ℕ, ◌+◌, ◌≡◌, ◌≢◌, ◌⊎◌, inl, inr, refl, sym, ap, ◌∙◌, Option, none, some, List, [], ◌∷◌, ◌++◌, leb,
  Bool-cases, length,
}
use iot_yk.Base.Bytes.{done}
use mathlib.Core.Path.{subst}
use mathlib.Core.List.{append_assoc, append-nil}
use iot_yk.Provision.{Rx, Output, quiet, overflow, command, json_task}
use iot_yk.Provision.Buffer.{cut, CutsTo, cut-CutsTo, command_parts, command_of, Holds}
use iot_yk.Provision.Lines.{received_line, receive, json_round-Answers}

unfoldable pub receive_all : List ℕ → List (List ℕ) → List Output × List ℕ
receive_all waiting [] = ([], waiting)
receive_all waiting (msg ∷ msgs) =
    let (out, left) = receive waiting msg in
    let (outs, last) = receive_all left msgs in (out ∷ outs, last)

abbrev pub AllAnswers : Rx → List (List ℕ) → List Output × List ℕ → Type 0
AllAnswers rx msgs (outs, waiting) =
    (rx' : Rx) × (json_task rx msgs ≡ done (outs, rx')) × Holds waiting rx'

pub json_task-AllAnswers :
    (rx : Rx) (waiting : List ℕ) (msgs : List (List ℕ))
    → Holds waiting rx
    → AllAnswers rx msgs (receive_all waiting msgs)
unfolding json_task receive_all
json_task-AllAnswers rx waiting [] h = (rx, refl, h)
json_task-AllAnswers rx waiting (msg ∷ msgs) h =
    let (rx1, first, h1) = json_round-Answers rx waiting msg h in
    let (rx2, later, h2) = json_task-AllAnswers rx1 (receive waiting msg).1 msgs h1 in
    (rx2, rw (first, later) refl, h2)

-- A command as the line that it was.
abbrev hmac_bytes : Option (List ℕ) → List ℕ
hmac_bytes none = []
hmac_bytes (some hmac) = b'|' ∷ hmac

abbrev pub written_bytes : Output → List ℕ
written_bytes quiet = []
written_bytes overflow = []
written_bytes (command c) = (c.json ++ hmac_bytes c.hmac) ++ b'\n' ∷ []

abbrev pub concat_with : List Output → List ℕ
concat_with [] = []
concat_with (out ∷ outs) = written_bytes out ++ concat_with outs

abbrev pub concat : List (List ℕ) → List ℕ
concat [] = []
concat (xs ∷ xss) = xs ++ concat xss

abbrev pub NoOverflow : List Output → Type 0
NoOverflow [] = Unit
NoOverflow (quiet ∷ outs) = NoOverflow outs
NoOverflow (overflow ∷ outs) = ⊥
NoOverflow (command c ∷ outs) = NoOverflow outs

parts-line :
    (line : List ℕ) (o : Option (List ℕ × List ℕ))
    → CutsTo b'|' line o
    → written_bytes (command (command_parts line o)) ≡ line ++ b'\n' ∷ []
parts-line line none h = rw append-nil refl
parts-line line (some (json, hmac)) h = rw h.0 refl

command_of-line : (line : List ℕ) → written_bytes (command (command_of line)) ≡ line ++ b'\n' ∷ []
unfolding command_of
command_of-line line = parts-line line (cut b'|' line) (cut-CutsTo b'|' line)

-- Nothing is lost by a message that fits: what it hands out and what waits are what was there.
received_line-Keeps :
    (waiting : List ℕ) (o : Option (List ℕ × List ℕ))
    → CutsTo b'\n' waiting o
    → waiting ≡ written_bytes (received_line waiting o).0 ++ (received_line waiting o).1
unfolding received_line
received_line-Keeps waiting none h = refl
received_line-Keeps waiting (some (line, rest)) h =
    rw (command_of-line line, append_assoc line (b'\n' ∷ []) rest) h.0

receive-Keeps :
    (waiting msg : List ℕ) (out : Output) (left : List ℕ)
    → receive waiting msg ≡ (out, left)
    → (out ≡ overflow) ⊎ (waiting ++ msg ≡ written_bytes out ++ left)
unfolding receive
receive-Keeps waiting msg out left e = elim (Bool-cases (leb 4095 (length waiting + length msg))) [
  | inl full ↦ inl (sym (ap (λ (p : Output × List ℕ). p.0) (rw full at e)))
  | inr room ↦ inr (
      subst (λ (p : Output × List ℕ). waiting ++ msg ≡ written_bytes p.0 ++ p.1) (rw room at e)
        (received_line-Keeps (waiting ++ msg) (cut b'\n' (waiting ++ msg))
          (cut-CutsTo b'\n' (waiting ++ msg))))
]

NoOverflow-cons :
    (out : Output) (outs : List Output)
    → NoOverflow (out ∷ outs)
    → (out ≢ overflow) × NoOverflow outs
NoOverflow-cons quiet outs h = (cc, h)
NoOverflow-cons overflow outs h = absurd h
NoOverflow-cons (command c) outs h = (cc, h)

receive_all-Keeps :
    (waiting : List ℕ) (msgs : List (List ℕ))
    → NoOverflow (receive_all waiting msgs).0
    → waiting ++ concat msgs
      ≡ concat_with (receive_all waiting msgs).0 ++ (receive_all waiting msgs).1
unfolding receive_all
receive_all-Keeps waiting [] h = append-nil waiting
receive_all-Keeps waiting (msg ∷ msgs) h =
    let first = receive waiting msg in
    let later = receive_all first.1 msgs in
    let (fits, fit) = NoOverflow-cons first.0 later.0 h in
    elim (receive-Keeps waiting msg first.0 first.1 refl) [
      | inl full ↦ absurd (fits full)
      | inr kept ↦
          sym (append_assoc waiting msg (concat msgs))
          ∙ ap (λ (xs : List ℕ). xs ++ concat msgs) kept
          ∙ append_assoc (written_bytes first.0) first.1 (concat msgs)
          ∙ ap (λ (xs : List ℕ). written_bytes first.0 ++ xs) (receive_all-Keeps first.1 msgs fit)
          ∙ sym (append_assoc (written_bytes first.0) (concat_with later.0) later.1)
    ]

pub record Kept (rx : Rx) (waiting : List ℕ) (msgs : List (List ℕ)) : Type 0 where
  pub outs : List Output
  pub after : Rx
  pub left : List ℕ
  pub ends : json_task rx msgs ≡ done (outs, after)
  pub holds : Holds left after
  pub kept : NoOverflow outs → waiting ++ concat msgs ≡ concat_with outs ++ left

-- Whatever messages come, with whatever bytes, the task never leaves its buffer of 4096 bytes, and
-- ends each round with a buffer that holds the bytes that wait and has room for a zero. Where no
-- overflow is reported, the lines handed out, each with its end, and the bytes that wait are the
-- bytes that waited and those of the messages, in order.
pub json_task-Kept :
    (rx : Rx) (waiting : List ℕ) (msgs : List (List ℕ)) → Holds waiting rx → Kept rx waiting msgs
json_task-Kept rx waiting msgs h =
    let (after, ends, holds) = json_task-AllAnswers rx waiting msgs h in
    record {
      outs = (receive_all waiting msgs).0;
      after = after;
      left = (receive_all waiting msgs).1;
      ends = ends;
      holds = holds;
      kept = receive_all-Keeps waiting msgs;
    }
