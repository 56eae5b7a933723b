-- ===== src/WebSocket/Trusted.antt =====
-- The certificates that the WebSocket client is given in esp32-firmware/main/transport/ykp_websocket.c.
use iot_yk.Base.{
  ℕ, zero, suc, ◌+◌, ◌-◌, ◌≤◌, ◌<◌, ◌≡◌, inl, inr, refl, ap, ◌∙◌, Bool, true, false, not, ◌&&◌,
  some, List, [], ◌∷◌, ◌++◌, ltb, if◌then◌else◌, Bool-cases, length, length-append, take, drop,
  replicate, arith,
}
use iot_yk.Base.{lt→ltb, leb-true, length-replicate}
use mathlib.Core.List.{append_assoc}
use iot_yk.Base.{take_le}
use iot_yk.Base.Bytes.{done, write_at, strncpy}
use iot_yk.Io.{c_string, NoZero, c_string-append}
use iot_yk.WebSocket.Roots.{fallback_ca_pem, length-fallback_ca_pem}
use iot_yk.WebSocket.Cert.{
  clean_loop, ends_line, end_line, clean, contains, end_certificate, judge, custom_cert,
  combined_start, combined, cert_pem,
}
use iot_yk.WebSocket.Cleaned.{IsClean, cleaned-IsClean}

write_start :
    (xs arr : List ℕ)
    → length xs ≤ length arr
    → write_at 0 xs arr ≡ done (xs ++ drop (0 + length xs) arr)
write_start xs arr h = rw (leb-true (0 + length xs) (length arr) (omega arith)) refl

c_string-take :
    (n m : ℕ) (text : List ℕ)
    → NoZero text
    → length text ≤ n
    → c_string (take (suc n) (text ++ replicate (suc m) 0)) ≡ text
unfolding c_string
c_string-take n m [] z h = refl
c_string-take zero m (x ∷ text) z h = absurd (omega arith)
c_string-take (suc n) m (x ∷ text) z h =
    rw z.0 (ap (◌∷◌ x) (c_string-take n m text z.1 (omega arith)))

c_string-strncpy :
    (n : ℕ) (text : List ℕ) → NoZero text → length text ≤ n → c_string (strncpy (suc n) text) ≡ text
unfolding strncpy
c_string-strncpy n text z h = c_string-take n n text z h

-- The clean-up does not leave its array, which then holds the text and its end.
clean-IsClean :
    (text : List ℕ)
    → IsClean (end_line (clean_loop 2046 text))
    → (post : List ℕ) × (clean text ≡ done (end_line (clean_loop 2046 text) ++ 0 ∷ post))
unfolding clean
clean-IsClean text h =
    let zeros : List ℕ = replicate 2048 0 in
    let cleaned = end_line (clean_loop 2046 text) in
    let room : length (cleaned ++ 0 ∷ []) ≤ length zeros =
      rw (length-replicate {A = ℕ} 2048 0)
        (omega (arith, h.bound, length-append {0} cleaned (0 ∷ []))) in
    let post = drop (0 + length (cleaned ++ 0 ∷ [])) zeros in
    (
      post,
      write_start (cleaned ++ 0 ∷ []) zeros room ∙ ap done (append_assoc cleaned (0 ∷ []) post),
    )

combined-none :
    (buf : List ℕ) (erased : Bool)
    → combined (record { has_custom_cert = false; ssl_cert_buf = buf; erased = erased })
      ≡ fallback_ca_pem
unfolding combined combined_start
combined-none buf erased = take_le 8191 fallback_ca_pem (omega (arith, length-fallback_ca_pem))

combined-custom :
    (text : List ℕ) (erased : Bool)
    → length text ≤ 2047
    → ends_line text ≡ true
    → combined (record { has_custom_cert = true; ssl_cert_buf = text; erased = erased })
      ≡ text ++ fallback_ca_pem
unfolding combined combined_start
combined-custom text erased room e =
    let whole = take_le 8191 text (omega arith) in
    let start : (if ltb 0 (length text) && not (ends_line text) && ltb (length text) (8192 - 2)
          then text ++ b'\n' ∷ []
          else text)
        ≡ text =
      rw e (ground arith) in
    let added =
      take_le (8192 - length text - 1) fallback_ca_pem (omega (arith, length-fallback_ca_pem)) in
    rw (whole, start, added) refl

-- What the client trusts, and whether the stored certificate is erased.
abbrev pub trusted_of : (List ℕ → Bool) → List ℕ → List ℕ × Bool
trusted_of x509_parse cleaned =
    if contains end_certificate cleaned && x509_parse (cleaned ++ 0 ∷ [])
    then (cleaned ++ fallback_ca_pem, false)
    else (fallback_ca_pem, contains end_certificate cleaned)

judge-trusted :
    (x509_parse : List ℕ → Bool) (cleaned : List ℕ)
    → length cleaned ≤ 2047
    → ends_line cleaned ≡ true
    → (combined (judge x509_parse cleaned cleaned), (judge x509_parse cleaned cleaned).erased)
      ≡ trusted_of x509_parse cleaned
unfolding judge
judge-trusted x509_parse cleaned room e = elim (Bool-cases (contains end_certificate cleaned)) [
  | inr no_end ↦ rw (no_end, combined-none cleaned false) refl
  | inl has_end ↦ elim (Bool-cases (x509_parse (cleaned ++ 0 ∷ []))) [
    | inr bad ↦ rw (has_end, bad, combined-none cleaned true) refl
    | inl good ↦ rw (has_end, good, combined-custom cleaned false room e) refl
  ]
]

-- A stored certificate is cleaned without leaving an array, to a text of at most 2047 bytes that
-- ends with a line's end, has no "\n" spelled out, and stays as it is when it is cleaned again. If
-- the text has an end mark and mbedTLS parses it, the client trusts it and all the built-in
-- certificates; if not, all the built-in ones and no other. The stored certificate is erased if and
-- only if the text has an end mark and mbedTLS does not parse it.
pub cert_pem-trusted :
    (x509_parse : List ℕ → Bool) (text : List ℕ)
    → 0 < length text
    → NoZero text
    → IsClean (end_line (clean_loop 2046 text))
      × (cert_pem x509_parse (some text)
          ≡ done (trusted_of x509_parse (end_line (clean_loop 2046 text))))
unfolding cert_pem custom_cert
cert_pem-trusted x509_parse text h z =
    let cleaned = end_line (clean_loop 2046 text) in
    let is_clean = cleaned-IsClean text h z in
    let (post, made) = clean-IsClean text is_clean in
    let read = c_string-append cleaned post is_clean.no_zero in
    let copied = c_string-strncpy 2047 cleaned is_clean.no_zero is_clean.bound in
    let some_text = lt→ltb 0 (length text) h in
    (
      is_clean,
      rw (some_text, made, read, copied)
          (ap done (judge-trusted x509_parse cleaned is_clean.bound is_clean.line_end)),
    )
