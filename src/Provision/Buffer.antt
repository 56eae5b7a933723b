-- ===== src/Provision/Buffer.antt =====
-- Strings in a buffer of C: `strchr` and `memcpy` in esp32-firmware/main/config/ble_provision.c, and
-- the bytes that wait in the line buffer.
use iot_yk.Base.{
  ℕ, zero, suc, ◌+◌, ◌≤◌, ◌≡◌, inl, inr, refl, ap, true, false, Option, none, some, List, [], ◌∷◌,
  ◌++◌, leb, ◌==◌, if◌then◌else◌, Bool-cases, length, length-append, drop, arith,
}
use iot_yk.Base.{==_iff}
use iot_yk.Base.Bytes.{done, write_at, take-append, drop-append}
use iot_yk.Io.{NoZero}
use iot_yk.Provision.{Rx, Command, strchr, next_index}

cons_line : ℕ → Option (List ℕ × List ℕ) → Option (List ℕ × List ℕ)
cons_line x none = none
cons_line x (some (line, rest)) = some (x ∷ line, rest)

-- What stands before the first `c`, and what stands behind it; a zero ends the search.
unfoldable pub cut : ℕ → List ℕ → Option (List ℕ × List ℕ)
unfolding cons_line
cut c [] = none
cut c (x ∷ xs) =
    let rest = cut c xs in
    if x == c then some ([], xs) else if x == 0 then none else cons_line x rest

-- The two parts of a line, before and behind a bar.
abbrev pub command_parts : List ℕ → Option (List ℕ × List ℕ) → Command
command_parts line none = record { json = line; hmac = none }
command_parts line (some (json, hmac)) = record { json = json; hmac = some hmac }

unfoldable pub command_of : List ℕ → Command
command_of line = command_parts line (cut b'|' line)

-- The waiting bytes stand at the start of the buffer, with room for a zero.
pub record Holds (waiting : List ℕ) (rx : Rx) : Type 0 where
  pub behind : List ℕ
  pub bytes : rx.buffer ≡ waiting ++ behind
  pub counted : rx.filled ≡ length waiting
  pub size : length waiting + length behind ≡ 4096
  pub room : length waiting ≤ 4094

pub drop-append_add :
    (n k : ℕ) (pre ys : List ℕ) → n ≡ length pre → drop (n + k) (pre ++ ys) ≡ drop k ys
drop-append_add n k [] ys e = let none_more : n + k ≡ k = omega arith in rw none_more refl
drop-append_add zero k (x ∷ pre) ys e = absurd (omega arith)
drop-append_add (suc n) k (x ∷ pre) ys e =
    let shift : suc n + k ≡ suc (n + k) = omega arith in
    rw shift (drop-append_add n k pre ys (omega arith))

-- `xs` in the place of as many bytes behind `pre`.
pub write_at-split :
    (n : ℕ) (xs arr pre old post : List ℕ)
    → n ≡ length pre
    → arr ≡ pre ++ (old ++ post)
    → length xs ≡ length old
    → write_at n xs arr ≡ done (pre ++ (xs ++ post))
write_at-split n xs arr pre old post at shape same =
    let fits : leb (length pre + length xs) (length (pre ++ (old ++ post))) ≡ true =
      ground (arith, length-append pre (old ++ post), length-append old post) in
    rw (
      shape,
      at,
      fits,
      take-append pre (old ++ post),
      drop-append_add (length pre) (length xs) pre (old ++ post) refl,
      same,
      drop-append old post,
    )

-- The first `n` bytes of a longer array, and the rest.
abbrev pub Parts : ℕ → List ℕ → Type 0
Parts n xs = (front : List ℕ) × (back : List ℕ) × (xs ≡ front ++ back) × (length front ≡ n)

pub parts : (n : ℕ) (xs : List ℕ) → n ≤ length xs → Parts n xs
parts zero xs h = ([], xs, refl, refl)
parts (suc n) [] h = absurd (omega arith)
parts (suc n) (x ∷ xs) h =
    let (front, back, split, size) = parts n xs (omega arith) in
    (x ∷ front, back, ap (◌∷◌ x) split, ap suc size)

abbrev pub cut_index : Option (List ℕ × List ℕ) → Option ℕ
cut_index none = none
cut_index (some (line, rest)) = some (length line)

next_index-cons :
    (x : ℕ) (o : Option (List ℕ × List ℕ)) → next_index (cut_index o) ≡ cut_index (cons_line x o)
unfolding next_index cons_line
next_index-cons x none = refl
next_index-cons x (some (line, rest)) = ground arith

-- `strchr` in a C string finds what `cut` does.
pub strchr-cut :
    (c : ℕ) (xs post : List ℕ)
    → (0 == c) ≡ false
    → strchr c (xs ++ 0 ∷ post) ≡ done (cut_index (cut c xs))
unfolding strchr cut
strchr-cut c [] post h = rw h refl
strchr-cut c (x ∷ xs) post h = elim (Bool-cases (x == c)) [
  | inl found ↦ rw found refl
  | inr other ↦ elim (Bool-cases (x == 0)) [
    | inl end ↦ rw (other, end) refl
    | inr more ↦ rw (other, more, strchr-cut c xs post h) (ap done (next_index-cons x (cut c xs)))
  ]
]

abbrev pub CutsTo : ℕ → List ℕ → Option (List ℕ × List ℕ) → Type 0
CutsTo c xs none = Unit
CutsTo c xs (some (line, rest)) = (xs ≡ line ++ c ∷ rest) × NoZero line

CutsTo-cons :
    (c x : ℕ) (xs : List ℕ) (o : Option (List ℕ × List ℕ))
    → (x == 0) ≡ false
    → CutsTo c xs o
    → CutsTo c (x ∷ xs) (cons_line x o)
unfolding cons_line
CutsTo-cons c x xs none e h = tt
CutsTo-cons c x xs (some (line, rest)) e h = (ap (◌∷◌ x) h.0, (e, h.1))

pub cut-CutsTo : (c : ℕ) (xs : List ℕ) → CutsTo c xs (cut c xs)
unfolding cut
cut-CutsTo c [] = tt
cut-CutsTo c (x ∷ xs) = elim (Bool-cases (x == c)) [
  | inl found ↦ rw found (ap (λ y. y ∷ xs) ((==_iff x c).0 found), tt)
  | inr other ↦ elim (Bool-cases (x == 0)) [
    | inl end ↦ rw (other, end) tt
    | inr more ↦ rw (other, more) (CutsTo-cons c x xs (cut c xs) more (cut-CutsTo c xs))
  ]
]
