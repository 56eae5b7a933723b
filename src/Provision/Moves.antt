-- ===== src/Provision/Moves.antt =====
-- What stays in the line buffer of `json_task` in esp32-firmware/main/config/ble_provision.c behind a
-- line: the bytes moved to the start, and the parts of the line.
use iot_yk.Base.{
  ℕ, ◌+◌, ◌-◌, ◌≤◌, ◌<◌, ◌≡◌, refl, sym, ap, true, false, Option, none, some, List, [], ◌∷◌, ◌++◌,
  ltb, length, length-append, take, drop, arith,
}
use iot_yk.Base.{ltb-false, lt→ltb}
use iot_yk.Base.Bytes.{Run, done, ◌>>=◌, write_at, take-append}
use iot_yk.Io.{c_string, NoZero, c_string-append}
use iot_yk.Provision.{Rx, cut_hmac, move_rest}
use iot_yk.Provision.Buffer.{
  command_parts, Holds, drop-append_add, write_at-split, parts, cut_index, CutsTo,
}

pub NoZero-append : (xs ys : List ℕ) (x : ℕ) → NoZero (xs ++ x ∷ ys) → NoZero ys
NoZero-append [] ys x h = h.1
NoZero-append (y ∷ xs) ys x h = NoZero-append xs ys x h.1

pub append_cons_assoc :
    (xs : List ℕ) (x : ℕ) (ys zs : List ℕ) → (xs ++ x ∷ ys) ++ zs ≡ xs ++ (x ∷ (ys ++ zs))
append_cons_assoc [] x ys zs = refl
append_cons_assoc (y ∷ xs) x ys zs = ap (◌∷◌ y) (append_cons_assoc xs x ys zs)

abbrev pub Marks : List ℕ → List ℕ → Option (List ℕ × List ℕ) → Type 0
Marks line post o =
    (marked : List ℕ) × (cut_hmac (cut_index o) (line ++ 0 ∷ post)
      ≡ done (command_parts line o, marked ++ 0 ∷ post))
    × (length marked ≡ length line)

pub cut_hmac-parts :
    (line post : List ℕ) (o : Option (List ℕ × List ℕ))
    → NoZero line
    → CutsTo b'|' line o
    → Marks line post o
unfolding cut_hmac
cut_hmac-parts line post none n h = (line, rw (c_string-append line post n) refl, refl)
cut_hmac-parts line post (some (json, hmac)) n h =
    let shape : line ++ 0 ∷ post ≡ json ++ (b'|' ∷ (hmac ++ 0 ∷ post)) =
      rw h.0 (append_cons_assoc json b'|' hmac (0 ∷ post)) in
    let written =
      write_at-split (length json) (0 ∷ []) (line ++ 0 ∷ post) json (b'|' ∷ []) (hmac ++ 0 ∷ post)
        refl shape refl in
    let first : c_string (json ++ 0 ∷ (hmac ++ 0 ∷ post)) ≡ json =
      c_string-append json (hmac ++ 0 ∷ post) h.1 in
    let behind : drop (length json + 1) (json ++ 0 ∷ (hmac ++ 0 ∷ post)) ≡ hmac ++ 0 ∷ post =
      drop-append_add (length json) 1 json (0 ∷ (hmac ++ 0 ∷ post)) refl in
    let second : c_string (hmac ++ 0 ∷ post) ≡ hmac =
      c_string-append hmac post (NoZero-append json hmac b'|' (rw h.0 at n)) in
    (
      json ++ 0 ∷ hmac,
      rw (written, first, behind, second, append_cons_assoc json 0 hmac (0 ∷ post)) refl,
      rw h.0
          (omega (arith, length-append {0} json (0 ∷ hmac), length-append {0} json (b'|' ∷ hmac))),
    )

pub ends_at_start :
    (r buffer : List ℕ)
    → length r < length buffer
    → length buffer ≡ 4096
    → length r ≤ 4094
    → (buffer' : List ℕ) × (write_at 0 r buffer ≡ done buffer')
      × (rx : Rx) × ((write_at (length r) (0 ∷ []) buffer' >>= λ ended.
            done (record { buffer = ended; filled = length r }))
          ≡ done rx)
      × Holds r rx
ends_at_start r buffer h size room =
    let (old, more, split, same) = parts (length r) buffer (omega arith) in
    let left : 1 ≤ length more =
      omega (arith, rw split at size, rw split at h, length-append {0} old more) in
    let (o, post, split', same') = parts 1 more left in
    let copied = write_at-split 0 r buffer [] old more refl split (sym same) in
    let ended =
      write_at-split (length r) (0 ∷ []) (r ++ more) r o post refl (ap (λ t. r ++ t) split')
        (sym same') in
    (
      r ++ more,
      copied,
      record { buffer = r ++ (0 ∷ post); filled = length r },
      rw ended refl,
      record {
        behind = 0 ∷ post;
        bytes = refl;
        counted = refl;
        size = omega (
          arith,
          rw (split, split') at size,
          length-append {0} old (o ++ post),
          length-append {0} o post,
        );
        room = room;
      },
    )

abbrev pub Ends : Run Rx → List ℕ → Type 0
Ends m waiting = (rx : Rx) × (m ≡ done rx) × Holds waiting rx

pub move_nothing :
    (n filled : ℕ) (buffer : List ℕ)
    → filled ≡ n
    → length buffer ≡ 4096
    → Ends (move_rest n filled buffer) []
unfolding move_rest
move_nothing n filled buffer e size =
    let (o, post, split, same) = parts 1 buffer (omega arith) in
    let ended = write_at-split 0 (0 ∷ []) buffer [] o post refl split (sym same) in
    let stays : ltb 0 (filled - n) ≡ false = ltb-false 0 (filled - n) (omega arith) in
    (
      record { buffer = 0 ∷ post; filled = 0 },
      rw (stays, ended) refl,
      record {
        behind = 0 ∷ post;
        bytes = refl;
        counted = refl;
        size = omega (arith, rw split at size, length-append {0} o post);
        room = omega arith;
      },
    )

pub move_some :
    (n filled : ℕ) (r buffer : List ℕ)
    → filled ≡ n + length r
    → 0 < length r
    → take (length r) (drop n buffer) ≡ r
    → length r < length buffer
    → length buffer ≡ 4096
    → length r ≤ 4094
    → Ends (move_rest n filled buffer) r
unfolding move_rest
move_some n filled r buffer e some_left is_rest h size room =
    let (buffer', copied, rx, ended, holds) = ends_at_start r buffer h size room in
    let remaining : filled - n ≡ length r = omega arith in
    let moves : ltb 0 (length r) ≡ true = lt→ltb 0 (length r) some_left in
    (rx, rw (remaining, moves, is_rest, copied) ended, holds)

pub move_rest-Ends :
    (n filled : ℕ) (marked r post : List ℕ)
    → n ≡ length marked + 1
    → filled ≡ n + length r
    → length (marked ++ 0 ∷ (r ++ 0 ∷ post)) ≡ 4096
    → filled ≤ 4094
    → Ends (move_rest n filled (marked ++ 0 ∷ (r ++ 0 ∷ post))) r
move_rest-Ends n filled marked [] post e f size room =
    move_nothing n filled (marked ++ 0 ∷ 0 ∷ post) (omega arith) size
move_rest-Ends n filled marked (x ∷ r) post e f size room =
    move_some n filled (x ∷ r) (marked ++ 0 ∷ (x ∷ (r ++ 0 ∷ post))) f (omega arith)
      (rw (e, drop-append_add (length marked) 1 marked (0 ∷ (x ∷ (r ++ 0 ∷ post))) refl)
        (take-append (x ∷ r) (0 ∷ post)))
      (omega arith) size (omega arith)
