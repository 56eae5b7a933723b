-- ===== src/Security/Examples.antt =====
-- The theorems of the encryption at a concrete packet, with an AEAD that only adds a tag of zeros.
use iot_yk.Security.Derived.{derive-Derives}
use iot_yk.Security.Keys.{derive_session_key}
use iot_yk.Security.Keys.{blank_ctx}
use iot_yk.Security.Derived.{Derives}
use iot_yk.Base.{
  ℕ, ◌-◌, ◌≡◌, refl, ap, Bool, true, false, Option, some, List, [], ◌∷◌, ◌++◌, length,
  length-append, replicate, take, arith,
}
use iot_yk.Base.Bytes.{take-append}
use iot_yk.Security.{SessionKeys, iv, encrypt, decrypt}
use mathlib.Core.List.{map}
use iot_yk.Session.{Session, ecdh_sent, set_active}
use iot_yk.Session.Ids.{packet_ids}
use iot_yk.Security.Pool.{pool_calloc, blocks, Apart, blocks-Apart}
use iot_yk.Security.Iv.{AllDiffer, nonces-AllDiffer}
use iot_yk.Security.RoundTrip.{IsAead, decrypt-encrypt}

abbrev seal : List ℕ → List ℕ → List ℕ → List ℕ → Option (List ℕ)
seal key nonce aad plain = some (plain ++ replicate 16 0)

abbrev unseal : List ℕ → List ℕ → List ℕ → List ℕ → Option (List ℕ)
unseal key nonce aad sealed = some (take (length sealed - 16) sealed)

cut_tag :
    (plain : List ℕ)
    → take (length (plain ++ replicate 16 0) - 16) (plain ++ replicate 16 0) ≡ plain
cut_tag plain =
    let size : length (plain ++ replicate 16 0) - 16 ≡ length plain =
      omega (arith, length-append plain (replicate 16 0)) in
    rw size (take-append plain (replicate 16 0))

some_injective : (xs ys : List ℕ) → ◌≡◌ {A = Option (List ℕ)} (some xs) (some ys) → xs ≡ ys
some_injective xs ys e = cc

toy-IsAead : IsAead seal unseal
toy-IsAead = record {
  longer = λ key nonce aad plain out e.
      rw (← some_injective (plain ++ replicate 16 0) out e) (length-append plain (replicate 16 0));
  opens = λ key nonce aad plain out e.
      rw (← some_injective (plain ++ replicate 16 0) out e) (ap some (cut_tag plain));
}

abbrev keys : SessionKeys
keys = record { session_key = replicate 32 5; session_id = 9; key_ver = 1; active = true }

abbrev imports_all : List ℕ → Bool
imports_all key = true

decrypt-encrypt_example :
    (text : List ℕ) × ((tag : List ℕ) × ((encrypt imports_all seal keys 2 (1 ∷ []) (7 ∷ 8 ∷ 9 ∷ [])
          ≡ some (text, tag))
        × (length text ≡ 3)
        × (length tag ≡ 16)
        × (decrypt imports_all unseal keys 2 (1 ∷ []) text tag ≡ some (7 ∷ 8 ∷ 9 ∷ []))))
decrypt-encrypt_example =
    decrypt-encrypt imports_all seal unseal toy-IsAead keys 2 (1 ∷ []) (7 ∷ 8 ∷ 9 ∷ [])
      (7 ∷ 8 ∷ 9 ∷ replicate 16 0) refl refl (omega arith) refl

abbrev idle_session : Session
idle_session = record {
  state = ecdh_sent;
  session_id = 0;
  packet_counter = 5;
  rx_counter = 0;
  key_rotate_at = 1000;
  session_start_ms = 0;
  server_nonce = replicate 16 0;
  needs_key_rotate = false;
  sec_ctx = some true;
}

nonces-AllDiffer_example :
    AllDiffer
      (map (iv 1) (packet_ids (set_active 1000000 9 idle_session) (2000000 ∷ 3000000 ∷ [])).0)
nonces-AllDiffer_example =
    nonces-AllDiffer idle_session 1 1000000 9 (2000000 ∷ 3000000 ∷ []) (omega arith) (omega arith)

-- Three requests, of which the second is too large for what is left.
abbrev requests : List (ℕ × ℕ)
requests = (3, 5) ∷ (1000, 9) ∷ (1, 8176) ∷ []

blocks-requests : blocks 0 requests ≡ (0, 15) ∷ (16, 8176) ∷ []
unfolding blocks pool_calloc
blocks-requests = refl

blocks-Apart_example : Apart 0 (blocks 0 requests)
blocks-Apart_example = blocks-Apart requests (omega arith, (omega arith, (omega arith, tt)))

derive-Derives_example :
    Derives
      (λ key. true)
      (λ private public. some public)
      (λ secret salt. (true, secret ++ salt))
      (7 ∷ 8 ∷ [])
      (1 ∷ [])
      5
      blank_ctx
      (derive_session_key
        (λ key. true)
        (λ private public. some public)
        (λ secret salt. (true, secret ++ salt))
        (7 ∷ 8 ∷ [])
        (1 ∷ [])
        5
        blank_ctx)
derive-Derives_example =
    derive-Derives (λ key. true) (λ private public. some public)
      (λ secret salt. (true, secret ++ salt)) (7 ∷ 8 ∷ []) (1 ∷ []) 5 blank_ctx
