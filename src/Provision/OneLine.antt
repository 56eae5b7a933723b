-- ===== src/Provision/OneLine.antt =====
-- One line that a phone cuts into writes, in `json_task` of
-- esp32-firmware/main/config/ble_provision.c.
use iot_yk.Base.{
  ℕ, ◌+◌, ◌≤◌, ◌≡◌, refl, sym, ap, ◌∙◌, false, none, some, List, [], ◌∷◌, ◌++◌, ◌==◌, length,
  length-append, arith,
}
use iot_yk.Base.{leb-false}
use mathlib.Core.List.{append_assoc, append-nil}
use iot_yk.Provision.{Command, Output, quiet, overflow, command}
use iot_yk.Provision.Buffer.{cut, command_of}
use iot_yk.Provision.Lines.{received_line, receive}
use iot_yk.Provision.Framed.{receive_all, concat}

-- No zero and no end of a line.
abbrev pub Plain : List ℕ → Type 0
Plain [] = Unit
Plain (x ∷ xs) = ((x == b'\n') ≡ false) × ((x == 0) ≡ false) × Plain xs

pub Plain-append : (xs ys : List ℕ) → Plain (xs ++ ys) → Plain xs
Plain-append [] ys h = tt
Plain-append (x ∷ xs) ys h = (h.0, h.1, Plain-append xs ys h.2)

pub cut-Plain : (xs : List ℕ) → Plain xs → cut b'\n' xs ≡ none
unfolding cut
cut-Plain [] h = refl
cut-Plain (x ∷ xs) h = rw (h.0, h.1, cut-Plain xs h.2) refl

pub cut_end : (xs : List ℕ) → Plain xs → cut b'\n' (xs ++ b'\n' ∷ []) ≡ some (xs, [])
unfolding cut
cut_end [] h = refl
cut_end (x ∷ xs) h = rw (h.0, h.1, cut_end xs h.2) refl

-- Something is left before the end of `line`: then `xs` stands at its start.
pub before_end :
    (xs : List ℕ) (r : ℕ) (rs line : List ℕ) (e : ℕ)
    → xs ++ r ∷ rs ≡ line ++ e ∷ []
    → (more : List ℕ) × (line ≡ xs ++ more) × (r ∷ rs ≡ more ++ e ∷ [])
before_end [] r rs line e h = (line, refl, h)
before_end (x ∷ xs) r rs [] e h = absurd (omega (arith, ap length h, length-append {0} xs (r ∷ rs)))
before_end (x ∷ xs) r rs (l ∷ line) e h =
    let tails : xs ++ r ∷ rs ≡ line ++ e ∷ [] = cc in
    let (more, split, rest) = before_end xs r rs line e tails in
    (more, let heads : x ≡ l = cc in rw (heads, split) refl, rest)

abbrev pub commands : List Output → List Command
commands [] = []
commands (quiet ∷ outs) = commands outs
commands (overflow ∷ outs) = commands outs
commands (command c ∷ outs) = c ∷ commands outs

pub receive-quiet :
    (waiting msg : List ℕ)
    → Plain (waiting ++ msg)
    → length waiting + length msg ≤ 4094
    → receive waiting msg ≡ (quiet, waiting ++ msg)
unfolding receive received_line
receive-quiet waiting msg p room =
    let fits = leb-false 4095 (length waiting + length msg) (omega arith) in
    rw (fits, cut-Plain (waiting ++ msg) p) refl

pub receive_line :
    (waiting msg line : List ℕ)
    → Plain line
    → waiting ++ msg ≡ line ++ b'\n' ∷ []
    → length line ≤ 4093
    → receive waiting msg ≡ (command (command_of line), [])
unfolding receive received_line
receive_line waiting msg line p e room =
    let size : length waiting + length msg ≡ length line + 1 =
      omega
        (arith, ap length e, length-append {0} waiting msg, length-append {0} line (b'\n' ∷ [])) in
    let fits = leb-false 4095 (length waiting + length msg) (omega arith) in
    rw (fits, e, cut_end line p) refl

abbrev pub GivesLine : List Output × List ℕ → List ℕ → Type 0
GivesLine (outs, left) line = (commands outs ≡ command_of line ∷ []) × (left ≡ [])

abbrev pub GivesNothing : List Output × List ℕ → Type 0
GivesNothing (outs, left) = (commands outs ≡ []) × (left ≡ [])

pub receive_all-nothing :
    (msgs : List (List ℕ)) → concat msgs ≡ [] → GivesNothing (receive_all [] msgs)
unfolding receive_all
receive_all-nothing [] e = (refl, refl)
receive_all-nothing ([] ∷ msgs) e =
    rw (receive-quiet [] [] tt (omega arith)) (receive_all-nothing msgs e)
receive_all-nothing ((x ∷ msg) ∷ msgs) e = absurd (omega (arith, ap length e))

-- The message ends the line, or a part of the line is still to come.
pub rest_or_end :
    (waiting msg : List ℕ) (msgs : List (List ℕ)) (line rest : List ℕ)
    → concat msgs ≡ rest
    → Plain line
    → length line ≤ 4093
    → (waiting ++ msg) ++ concat msgs ≡ line ++ b'\n' ∷ []
    → ((more : List ℕ)
        → line ≡ (waiting ++ msg) ++ more
        → concat msgs ≡ more ++ b'\n' ∷ []
        → GivesLine (receive_all (waiting ++ msg) msgs) line)
    → GivesLine (receive_all waiting (msg ∷ msgs)) line
unfolding receive_all
rest_or_end waiting msg msgs line [] r p room e later =
    let whole =
      sym (append-nil (waiting ++ msg)) ∙ ap (λ (t : List ℕ). (waiting ++ msg) ++ t) (sym r) ∙ e in
    let (none_more, empty) = receive_all-nothing msgs r in
    rw (receive_line waiting msg line p whole room) (ap (◌∷◌ (command_of line)) none_more, empty)
rest_or_end waiting msg msgs line (x ∷ rest) r p room e later =
    let (more, split, left) = before_end (waiting ++ msg) x rest line b'\n' (rw r at e) in
    let start = Plain-append (waiting ++ msg) more (rw split at p) in
    let size : length waiting + length msg ≤ 4093 = omega (
      arith,
      rw split at room,
      length-append {0} (waiting ++ msg) more,
      length-append {0} waiting msg,
    ) in
    rw (receive-quiet waiting msg start (omega arith)) (later more split (r ∙ left))

pub receive_all-line :
    (waiting : List ℕ) (msgs : List (List ℕ)) (line : List ℕ)
    → Plain line
    → length line ≤ 4093
    → (more : List ℕ) → line ≡ waiting ++ more
    → concat msgs ≡ more ++ b'\n' ∷ []
    → GivesLine (receive_all waiting msgs) line
receive_all-line waiting [] line p room more e f =
    absurd (omega (arith, ap length f, length-append {0} more (b'\n' ∷ [])))
receive_all-line waiting (msg ∷ msgs) line p room more e f =
    rest_or_end waiting msg msgs line (concat msgs) refl p room
      (append_assoc waiting msg (concat msgs)
        ∙ ap (λ (t : List ℕ). waiting ++ t) f
        ∙ sym (append_assoc waiting more (b'\n' ∷ []))
        ∙ ap (λ (t : List ℕ). t ++ b'\n' ∷ []) (sym e))
      (receive_all-line (waiting ++ msg) msgs line p room)
