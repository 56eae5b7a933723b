-- ===== src/Security/RoundTrip.antt =====
-- A payload encrypted and decrypted again, ykp_security.c.
use iot_yk.Base.{
  ℕ, ◌+◌, ◌≤◌, ◌≡◌, refl, ap, ◌∙◌, Bool, true, Option, some, List, ◌++◌, length, length-take,
  length-drop, take, drop, take-append-drop, ltb-false, arith,
}
use iot_yk.Base.Bytes.{take_all}
use iot_yk.Security.{SessionKeys, iv, encrypt, decrypt}

-- What PSA documents of an AEAD with a tag of 16 bytes: a sealed text is 16 bytes longer than the
-- plain one, and it opens under the same key, nonce and associated data.
pub record IsAead (seal unseal : List ℕ → List ℕ → List ℕ → List ℕ → Option (List ℕ)) : Type 0 where
  pub longer :
      (key nonce aad plain out : List ℕ)
      → seal key nonce aad plain ≡ some out
      → length out ≡ length plain + 16
  pub opens :
      (key nonce aad plain out : List ℕ)
      → seal key nonce aad plain ≡ some out
      → unseal key nonce aad out ≡ some plain

module _ (import_key : List ℕ → Bool)
    (seal unseal : List ℕ → List ℕ → List ℕ → List ℕ → Option (List ℕ))
    (law : IsAead seal unseal) where
  -- Under active keys that PSA imports, a payload of at most 240 bytes that the AEAD seals is
  -- encrypted to a text of its own length and a tag of 16 bytes, and these decrypt to the payload
  -- under the same keys, packet id and associated data.
  pub decrypt-encrypt :
      (keys : SessionKeys) (packet_id : ℕ) (aad plain out : List ℕ)
      → keys.active ≡ true
      → import_key keys.session_key ≡ true
      → length plain ≤ 240
      → seal keys.session_key (iv keys.key_ver packet_id) aad plain ≡ some out
      → (text : List ℕ) × ((tag : List ℕ) × ((encrypt import_key seal keys packet_id aad plain
              ≡ some (text, tag))
            × (length text ≡ length plain)
            × (length tag ≡ 16)
            × (decrypt import_key unseal keys packet_id aad text tag ≡ some plain)))
  unfolding encrypt decrypt
  decrypt-encrypt keys packet_id aad plain out on imported short sealed =
      let n = length plain in
      let size = law.longer keys.session_key (iv keys.key_ver packet_id) aad plain out sealed in
      let tag = take 16 (drop n out) in
      let whole : tag ≡ drop n out = take_all 16 (drop n out) (omega (arith, length-drop n out)) in
      let again : take 16 tag ≡ drop n out = ap (take 16) whole ∙ whole in
      let text_len : length (take n out) ≡ n = omega (arith, length-take n out) in
      (
        take n out,
        (
          tag,
          (
            rw (on, imported, ltb-false 256 (n + 16) (omega arith), sealed) refl,
            text_len,
            rw whole (omega (arith, length-drop n out)),
            rw (on, imported)
                (rw (text_len, ltb-false 256 (n + 16) (omega arith))
                  (ap
                      (λ tail.
                        unseal keys.session_key (iv keys.key_ver packet_id) aad
                          (take n out ++ tail))
                      again
                    ∙ rw (take-append-drop n out) (
                        law.opens keys.session_key (iv keys.key_ver packet_id) aad plain out
                          sealed))),
          ),
        ),
      )
