-- ===== src/WebSocket/Escaped.antt =====
-- A certificate whose line ends are spelled out, as esp32-firmware/main/transport/ykp_websocket.c
-- reads it back.
use iot_yk.Base.{
  ℕ, zero, suc, ◌≤◌, ◌<◌, ◌≡◌, inl, inr, refl, sym, ap, Bool, true, false, some, List, [], ◌∷◌,
  ◌++◌, ◌==◌, if◌then◌else◌, Bool-cases, length, arith,
}
use iot_yk.Base.{==_iff}
use iot_yk.Base.Bytes.{done}
use iot_yk.Io.{NoZero}
use iot_yk.WebSocket.Roots.{fallback_ca_pem}
use iot_yk.WebSocket.Cert.{clean_loop, ends_line, contains, end_certificate, cert_pem}
use iot_yk.WebSocket.Cleaned.{end_line_stays}
use iot_yk.WebSocket.Trusted.{cert_pem-trusted}

-- Each line's end as a backslash and an `n`.
pub escape : List ℕ → List ℕ
escape [] = []
escape (c ∷ text) = let rest = escape text in if c == b'\n' then b'\\' ∷ b'n' ∷ rest else c ∷ rest

-- No zero and no backslash.
abbrev pub NoBackslash : List ℕ → Type 0
NoBackslash [] = Unit
NoBackslash (c ∷ text) = ((c == b'\\') ≡ false) × ((c == 0) ≡ false) × NoBackslash text

clean_loop-copies :
    (room c : ℕ) (rest : List ℕ)
    → (c == b'\\') ≡ false
    → clean_loop (suc room) (c ∷ rest) ≡ c ∷ clean_loop room rest
unfolding clean_loop
clean_loop-copies zero c [] e = refl
clean_loop-copies (suc room) c [] e = refl
clean_loop-copies room c (d ∷ rest) e = rw e refl

clean_loop-line :
    (room : ℕ) (rest : List ℕ)
    → clean_loop (suc room) (b'\\' ∷ b'n' ∷ rest) ≡ b'\n' ∷ clean_loop room rest
unfolding clean_loop
clean_loop-line room rest = refl

clean_loop-escape :
    (room : ℕ) (text : List ℕ)
    → NoBackslash text
    → length text ≤ room
    → clean_loop room (escape text) ≡ text
unfolding escape
clean_loop-escape zero [] n h = unfold clean_loop in refl
clean_loop-escape (suc room) [] n h = unfold clean_loop in refl
clean_loop-escape zero (c ∷ text) n h = absurd (omega arith)
clean_loop-escape (suc room) (c ∷ text) n h =
    let ih = clean_loop-escape room text n.2 (omega arith) in
    elim (Bool-cases (c == b'\n')) [
      | inl line ↦
          rw (line, clean_loop-line room (escape text), ih)
            (ap (λ (x : ℕ). x ∷ text) (sym ((==_iff c b'\n').0 line)))
      | inr other ↦ rw (other, clean_loop-copies room c (escape text) n.0, ih) refl
    ]

escape-NoZero : (text : List ℕ) → NoBackslash text → NoZero (escape text)
unfolding escape
escape-NoZero [] n = tt
escape-NoZero (c ∷ text) n = elim (Bool-cases (c == b'\n')) [
  | inl line ↦ rw line (refl, (refl, escape-NoZero text n.2))
  | inr other ↦ rw other (n.1, escape-NoZero text n.2)
]

escape-pos : (text : List ℕ) → 0 < length text → 0 < length (escape text)
unfolding escape
escape-pos [] h = elim h [ ]
escape-pos (c ∷ text) h = elim (Bool-cases (c == b'\n')) [
  | inl line ↦ rw line (omega arith)
  | inr other ↦ rw other (omega arith)
]

-- A certificate of up to 2046 bytes with an end mark, without a zero or a backslash, whose last line
-- is ended, and that mbedTLS parses: stored with its line ends spelled out as a backslash and an
-- `n`, it is what the client trusts, unchanged, with all the built-in certificates behind it.
pub cert_pem-escape :
    (x509_parse : List ℕ → Bool) (pem : List ℕ)
    → 0 < length pem
    → length pem ≤ 2046
    → NoBackslash pem
    → ends_line pem ≡ true
    → contains end_certificate pem ≡ true
    → x509_parse (pem ++ 0 ∷ []) ≡ true
    → cert_pem x509_parse (some (escape pem)) ≡ done (pem ++ fallback_ca_pem, false)
cert_pem-escape x509_parse pem h room n e has_end good =
    let read = clean_loop-escape 2046 pem n room in
    let stays = end_line_stays pem e in
    let (is_clean, trusted) =
      cert_pem-trusted x509_parse (escape pem) (escape-pos pem h) (escape-NoZero pem n) in
    rw (trusted, read, stays, has_end, good) refl
