-- ===== src/WebSocket/Cleaned.antt =====
-- What the clean-up of a certificate in esp32-firmware/main/transport/ykp_websocket.c leaves.
use iot_yk.Base.{
  ℕ, zero, suc, ◌≤◌, ◌<◌, ◌≡◌, ◌⊎◌, inl, inr, refl, ap, Bool, true, false, ◌&&◌, List, [], ◌∷◌,
  ◌++◌, ltb, ◌==◌, Bool-cases, length, length-append, take, arith,
}
use iot_yk.Base.{lt→ltb, ltb→lt}
use iot_yk.Base.{take_le}
use iot_yk.Base.Bytes.{take-append}
use iot_yk.Io.{NoZero}
use iot_yk.WebSocket.Cert.{clean_loop, ends_line, end_line}

abbrev is_escape : ℕ → ℕ → Bool
is_escape c d = c == b'\\' && d == b'n'

-- No backslash stands before an `n`.
abbrev pub NoEscape : List ℕ → Type 0
NoEscape [] = Unit
NoEscape (c ∷ []) = Unit
NoEscape (c ∷ d ∷ text) = (is_escape c d ≡ false) × NoEscape (d ∷ text)

length-clean_loop : (room : ℕ) (text : List ℕ) → length (clean_loop room text) ≤ room
unfolding clean_loop
length-clean_loop zero text = omega arith
length-clean_loop (suc room) [] = omega arith
length-clean_loop (suc room) (c ∷ []) = omega arith
length-clean_loop (suc room) (c ∷ d ∷ text) = elim (Bool-cases (is_escape c d)) [
  | inl e ↦ rw e (omega (arith, length-clean_loop room text))
  | inr e ↦ rw e (omega (arith, length-clean_loop room (d ∷ text)))
]

clean_loop-NoZero : (room : ℕ) (text : List ℕ) → NoZero text → NoZero (clean_loop room text)
unfolding clean_loop
clean_loop-NoZero zero text h = tt
clean_loop-NoZero (suc room) [] h = tt
clean_loop-NoZero (suc room) (c ∷ []) h = h
clean_loop-NoZero (suc room) (c ∷ d ∷ text) h = elim (Bool-cases (is_escape c d)) [
  | inl e ↦ rw e (refl, clean_loop-NoZero room text h.1.1)
  | inr e ↦ rw e (h.0, clean_loop-NoZero room (d ∷ text) h.1)
]

-- The list is empty or begins with `d` or a line's end.
abbrev HeadOf : ℕ → List ℕ → Type 0
HeadOf d [] = Unit
HeadOf d (x ∷ xs) = (x ≡ d) ⊎ (x ≡ b'\n')

HeadOf-clean_loop : (room d : ℕ) (text : List ℕ) → HeadOf d (clean_loop room (d ∷ text))
unfolding clean_loop
HeadOf-clean_loop zero d text = tt
HeadOf-clean_loop (suc room) d [] = inl refl
HeadOf-clean_loop (suc room) d (c ∷ text) = elim (Bool-cases (is_escape d c)) [
  | inl e ↦ rw e (inr refl)
  | inr e ↦ rw e (inl refl)
]

NoEscape-cons :
    (c d : ℕ) (xs : List ℕ) → is_escape c d ≡ false → HeadOf d xs → NoEscape xs → NoEscape (c ∷ xs)
NoEscape-cons c d [] e h n = tt
NoEscape-cons c d (x ∷ xs) e (inl same) n = (rw (same) e, n)
NoEscape-cons c d (x ∷ xs) e (inr line) n = (ground arith, n)

NoEscape-newline : (xs : List ℕ) → NoEscape xs → NoEscape (b'\n' ∷ xs)
NoEscape-newline [] n = tt
NoEscape-newline (x ∷ xs) n = (refl, n)

clean_loop-NoEscape : (room : ℕ) (text : List ℕ) → NoEscape (clean_loop room text)
unfolding clean_loop
clean_loop-NoEscape zero text = tt
clean_loop-NoEscape (suc room) [] = tt
clean_loop-NoEscape (suc room) (c ∷ []) = tt
clean_loop-NoEscape (suc room) (c ∷ d ∷ text) = elim (Bool-cases (is_escape c d)) [
  | inl e ↦ rw e (NoEscape-newline (clean_loop room text) (clean_loop-NoEscape room text))
  | inr e ↦ rw e (
      NoEscape-cons c d (clean_loop room (d ∷ text)) e (HeadOf-clean_loop room d text)
        (clean_loop-NoEscape room (d ∷ text)))
]

clean_loop-take : (room : ℕ) (text : List ℕ) → NoEscape text → clean_loop room text ≡ take room text
unfolding clean_loop
clean_loop-take zero text n = refl
clean_loop-take (suc room) [] n = refl
clean_loop-take (suc zero) (c ∷ []) n = refl
clean_loop-take (suc (suc room)) (c ∷ []) n = refl
clean_loop-take (suc room) (c ∷ d ∷ text) n =
    rw n.0 (ap (◌∷◌ c) (clean_loop-take room (d ∷ text) n.1))

NoEscape-append : (xs : List ℕ) → NoEscape xs → NoEscape (xs ++ b'\n' ∷ [])
NoEscape-append [] n = tt
NoEscape-append (c ∷ []) n = (ground arith, tt)
NoEscape-append (c ∷ d ∷ xs) n = (n.0, NoEscape-append (d ∷ xs) n.1)

ends_line-append : (xs : List ℕ) → ends_line (xs ++ b'\n' ∷ []) ≡ true
unfolding ends_line
ends_line-append [] = refl
ends_line-append (c ∷ []) = refl
ends_line-append (c ∷ d ∷ xs) = ends_line-append (d ∷ xs)

NoZero-append : (xs ys : List ℕ) → NoZero xs → NoZero ys → NoZero (xs ++ ys)
NoZero-append [] ys h k = k
NoZero-append (x ∷ xs) ys h k = (h.0, NoZero-append xs ys h.1 k)

clean_loop-pos :
    (room : ℕ) (c : ℕ) (text : List ℕ) → 0 < room → 0 < length (clean_loop room (c ∷ text))
unfolding clean_loop
clean_loop-pos zero c text h = elim h [ ]
clean_loop-pos (suc room) c [] h = omega arith
clean_loop-pos (suc room) c (d ∷ text) h = elim (Bool-cases (is_escape c d)) [
  | inl e ↦ rw e (omega arith)
  | inr e ↦ rw e (omega arith)
]

pub end_line_stays : (text : List ℕ) → ends_line text ≡ true → end_line text ≡ text
unfolding end_line
end_line_stays text e = rw e (ground arith)

end_line_adds :
    (text : List ℕ) → 0 < length text → ends_line text ≡ false → end_line text ≡ text ++ b'\n' ∷ []
unfolding end_line
end_line_adds text h e = rw (e, lt→ltb 0 (length text) h) refl

-- A certificate as the clean-up leaves it: cleaned again, it stays as it is.
pub record IsClean (text : List ℕ) : Type 0 where
  pub some_text : 0 < length text
  pub bound : length text ≤ 2047
  pub no_escape : NoEscape text
  pub no_zero : NoZero text
  pub line_end : ends_line text ≡ true
  pub again : end_line (clean_loop 2046 text) ≡ text

again_ended :
    (text : List ℕ)
    → length text ≤ 2046
    → NoEscape text
    → ends_line text ≡ true
    → end_line (clean_loop 2046 text) ≡ text
again_ended text room n e =
    rw (clean_loop-take 2046 text n, take_le 2046 text room) (end_line_stays text e)

again_added :
    (text : List ℕ)
    → 0 < length text
    → length text ≤ 2046
    → NoEscape text
    → ends_line text ≡ false
    → end_line (clean_loop 2046 (text ++ b'\n' ∷ [])) ≡ text ++ b'\n' ∷ []
again_added text some_text room n e = elim (Bool-cases (ltb (length text) 2046)) [
  | inl short ↦
      again_ended (text ++ b'\n' ∷ [])
        (omega (arith, ltb→lt (length text) 2046 short, length-append {0} text (b'\n' ∷ [])))
        (NoEscape-append text n) (ends_line-append text)
  | inr full ↦
      let size : 2046 ≡ length text = ground arith in
      let cut : take 2046 (text ++ b'\n' ∷ []) ≡ text = rw size (take-append text (b'\n' ∷ [])) in
      rw (clean_loop-take 2046 (text ++ b'\n' ∷ []) (NoEscape-append text n), cut)
        (end_line_adds text some_text e)
]

end_line-IsClean :
    (text : List ℕ)
    → 0 < length text
    → length text ≤ 2046
    → NoEscape text
    → NoZero text
    → IsClean (end_line text)
end_line-IsClean text some_text room n z = elim (Bool-cases (ends_line text)) [
  | inl e ↦ rw (end_line_stays text e) (record {
    some_text = some_text;
    bound = omega arith;
    no_escape = n;
    no_zero = z;
    line_end = e;
    again = again_ended text room n e;
  })
  | inr e ↦ rw (end_line_adds text some_text e) (record {
    some_text = omega (arith, length-append {0} text (b'\n' ∷ []));
    bound = omega (arith, length-append {0} text (b'\n' ∷ []));
    no_escape = NoEscape-append text n;
    no_zero = NoZero-append text (b'\n' ∷ []) z (refl, tt);
    line_end = ends_line-append text;
    again = again_added text some_text room n e;
  })
]

pub cleaned-IsClean :
    (text : List ℕ) → 0 < length text → NoZero text → IsClean (end_line (clean_loop 2046 text))
cleaned-IsClean [] h z = elim h [ ]
cleaned-IsClean (c ∷ text) h z =
    end_line-IsClean (clean_loop 2046 (c ∷ text)) (clean_loop-pos 2046 c text (omega arith))
      (length-clean_loop 2046 (c ∷ text)) (clean_loop-NoEscape 2046 (c ∷ text))
      (clean_loop-NoZero 2046 (c ∷ text) z)
