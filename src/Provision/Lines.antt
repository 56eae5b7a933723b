-- ===== src/Provision/Lines.antt =====
-- A round of `json_task` in esp32-firmware/main/config/ble_provision.c, related to the bytes that
-- wait in its buffer.
use iot_yk.Base.{
  ℕ, ◌+◌, ◌≤◌, ◌≡◌, inl, inr, refl, sym, true, false, Option, none, some, List, [], ◌∷◌, ◌++◌, leb,
  if◌then◌else◌, Bool-cases, length, length-append, arith,
}
use iot_yk.Base.Bytes.{Run, done}
use mathlib.Core.List.{append_assoc}
use iot_yk.Provision.{Rx, Output, quiet, overflow, command, take_line, json_round}
use iot_yk.Provision.Buffer.{
  cut, command_of, Holds, write_at-split, parts, cut_index, strchr-cut, CutsTo, cut-CutsTo,
}
use iot_yk.Provision.Moves.{append_cons_assoc, cut_hmac-parts, move_rest-Ends}

-- What a message makes of the bytes that wait.
unfoldable pub received_line : List ℕ → Option (List ℕ × List ℕ) → Output × List ℕ
received_line waiting none = (quiet, waiting)
received_line waiting (some (line, rest)) = (command (command_of line), rest)

unfoldable pub receive : List ℕ → List ℕ → Output × List ℕ
receive waiting msg =
    let all = waiting ++ msg in
    if leb 4095 (length waiting + length msg)
    then (overflow, [])
    else received_line all (cut b'\n' all)

abbrev pub Answers : Run (Output × Rx) → Output × List ℕ → Type 0
Answers m (out, waiting) = (rx : Rx) × (m ≡ done (out, rx)) × Holds waiting rx

take_line-Answers :
    (filled : ℕ) (w post : List ℕ) (o : Option (List ℕ × List ℕ))
    → filled ≡ length w
    → CutsTo b'\n' w o
    → length (w ++ 0 ∷ post) ≡ 4096
    → length w ≤ 4094
    → Answers (take_line (cut_index o) filled (w ++ 0 ∷ post)) (received_line w o)
unfolding take_line received_line command_of
take_line-Answers filled w post none e h size room = (
  record { buffer = w ++ 0 ∷ post; filled = filled },
  refl,
  record {
    behind = 0 ∷ post;
    bytes = refl;
    counted = e;
    size = omega (arith, length-append {0} w (0 ∷ post));
    room = room;
  },
)
take_line-Answers filled w post (some (line, rest)) e h size room =
    let shape : w ++ 0 ∷ post ≡ line ++ (b'\n' ∷ (rest ++ 0 ∷ post)) =
      rw h.0 (append_cons_assoc line b'\n' rest (0 ∷ post)) in
    let ended =
      write_at-split (length line) (0 ∷ []) (w ++ 0 ∷ post) line (b'\n' ∷ []) (rest ++ 0 ∷ post)
        refl shape refl in
    let bar = strchr-cut b'|' line (rest ++ 0 ∷ post) refl in
    let (marked, cut_it, same) =
      cut_hmac-parts line (rest ++ 0 ∷ post) (cut b'|' line) h.1 (cut-CutsTo b'|' line) in
    let counted : filled ≡ length line + 1 + length rest =
      omega (arith, rw h.0 at e, length-append {0} line (b'\n' ∷ rest)) in
    let (rx, moved, holds) =
      move_rest-Ends (length line + 1) filled marked rest post (omega arith) counted
        (omega (
          arith,
          rw shape at size,
          length-append {0} line (b'\n' ∷ (rest ++ 0 ∷ post)),
          length-append {0} marked (0 ∷ (rest ++ 0 ∷ post)),
        ))
        (omega arith) in
    (rx, rw (ended, bar, cut_it, moved) refl, holds)

module _ (filled : ℕ) (buffer waiting behind msg : List ℕ) (bytes : buffer ≡ waiting ++ behind)
    (counted : filled ≡ length waiting) (size : length waiting + length behind ≡ 4096) where
  overflow-Answers :
      leb 4095 (filled + length msg) ≡ true
      → Answers (json_round (record { buffer = buffer; filled = filled }) msg) (overflow, [])
  unfolding json_round
  overflow-Answers e =
      let whole : length buffer ≡ 4096 =
        rw bytes (omega (arith, length-append {0} waiting behind)) in
      let (o, post, split, same) = parts 1 buffer (omega arith) in
      let ended = write_at-split 0 (0 ∷ []) buffer [] o post refl split (sym same) in
      (
        record { buffer = 0 ∷ post; filled = 0 },
        rw (e, ended) refl,
        record {
          behind = 0 ∷ post;
          bytes = refl;
          counted = refl;
          size = omega (arith, rw split at whole, length-append {0} o post);
          room = omega arith;
        },
      )

  room-Answers :
      leb 4095 (filled + length msg) ≡ false
      → length waiting + length msg ≤ 4094
      → Answers
          (json_round (record { buffer = buffer; filled = filled }) msg)
          (received_line (waiting ++ msg) (cut b'\n' (waiting ++ msg)))
  unfolding json_round
  room-Answers e room =
      let (old, back, split, same) = parts (length msg) behind (omega arith) in
      let more : 1 ≤ length back = omega (arith, rw split at size, length-append {0} old back) in
      let (o, post, split', same') = parts 1 back more in
      let copied =
        write_at-split filled msg buffer waiting old back counted (rw (bytes, split) refl)
          (sym same) in
      let all = length-append {0} waiting msg in
      let ended =
        write_at-split (filled + length msg) (0 ∷ []) (waiting ++ (msg ++ back)) (waiting ++ msg) o
          post (omega arith) (rw split' (sym (append_assoc waiting msg (o ++ post)))) (sym same') in
      let (rx, taken, holds) =
        take_line-Answers (filled + length msg) (waiting ++ msg) post (cut b'\n' (waiting ++ msg))
          (omega arith) (cut-CutsTo b'\n' (waiting ++ msg))
          (omega (
            arith,
            rw (split, split') at size,
            length-append {0} old (o ++ post),
            length-append {0} o post,
            length-append {0} (waiting ++ msg) (0 ∷ post),
          ))
          (omega arith) in
      (rx, rw (e, copied, ended, strchr-cut b'\n' (waiting ++ msg) post refl) taken, holds)

-- A round of the task does with its buffer what `receive` does with the bytes that wait in it.
pub json_round-Answers :
    (rx : Rx) (waiting msg : List ℕ)
    → Holds waiting rx
    → Answers (json_round rx msg) (receive waiting msg)
unfolding receive
json_round-Answers rx waiting msg h = elim (Bool-cases (leb 4095 (length waiting + length msg))) [
  | inl full ↦ rw full (
      overflow-Answers rx.filled rx.buffer waiting h.behind msg h.bytes h.counted h.size
        (rw h.counted full))
  | inr room ↦ rw room (
      room-Answers rx.filled rx.buffer waiting h.behind msg h.bytes h.counted h.size
        (rw h.counted room) (ground arith))
]
