-- ===== src/Security.antt =====
-- esp32-firmware/main/ykp_core/ykp_security.c: encryption of a payload under the session keys. The
-- PSA calls are parameters: whether a key is imported, and the AEAD, whose output is the ciphertext
-- with the tag behind it, or `none` for a status other than success.
pub mod Iv
pub mod Pool
pub mod Keys
pub mod Derived
pub mod RoundTrip
mod Examples
use iot_yk.Base.{
  ℕ, ◌+◌, Bool, not, Option, none, some, List, ◌++◌, length, take, drop, replicate, ltb,
  if◌then◌else◌,
}
use iot_yk.Packet.{auth_tag_size}
use iot_yk.Wire.{write_u32_be}

-- `sizeof(stack_buf)`
abbrev pub stack_buf_size : ℕ
stack_buf_size = 256

pub record SessionKeys : Type 0 where
  pub session_key : List ℕ
  pub session_id : ℕ
  pub key_ver : ℕ
  pub active : Bool

-- The 12 bytes of the nonce.
unfoldable pub iv : ℕ → ℕ → List ℕ
iv key_ver packet_id = write_u32_be key_ver ++ (write_u32_be packet_id ++ replicate 4 0)

module _ (import_key : List ℕ → Bool) where
  -- `psa_aead_encrypt` and `psa_aead_decrypt`, on the key, the nonce, the associated data and the
  -- input.
  module _ (aead : List ℕ → List ℕ → List ℕ → List ℕ → Option (List ℕ)) where
    -- The ciphertext and the tag; `none` for false.
    unfoldable pub encrypt : SessionKeys → ℕ → List ℕ → List ℕ → Option (List ℕ × List ℕ)
    encrypt keys packet_id aad plaintext =
        let plaintext_len = length plaintext in
        let sealed : Option (List ℕ × List ℕ) =
          elim (aead keys.session_key (iv keys.key_ver packet_id) aad plaintext) [
            | none ↦ none
            | some out ↦ some (take plaintext_len out, take auth_tag_size (drop plaintext_len out))
          ] in
        if not keys.active
        then none
        else if not (import_key keys.session_key)
        then none
        else if ltb stack_buf_size (plaintext_len + auth_tag_size)
        then none
        else sealed

    -- The plaintext; `none` for false, where the buffer's content is not followed.
    unfoldable pub decrypt : SessionKeys → ℕ → List ℕ → List ℕ → List ℕ → Option (List ℕ)
    decrypt keys packet_id aad ciphertext auth_tag =
        if not keys.active
        then none
        else if not (import_key keys.session_key)
        then none
        else if ltb stack_buf_size (length ciphertext + auth_tag_size)
        then none
        else aead keys.session_key (iv keys.key_ver packet_id) aad
            (ciphertext ++ take auth_tag_size auth_tag)
