-- ===== src/Security/Keys.antt =====
-- The keys of esp32-firmware/main/ykp_core/ykp_security.c: the context, the ephemeral pair, the
-- session key and signatures. The PSA calls and the stored blobs are parameters; a call that gives
-- bytes has `none` for a status other than success. Key handles and log lines are left out.
use iot_yk.Base.{
  ℕ, ◌+◌, Bool, true, false, not, ◌&&◌, Option, none, some, List, [], ◌∷◌, ◌++◌, ltb, if◌then◌else◌,
  length, replicate,
}
use Prim.Native.String.{String}
use iot_yk.Base.Bytes.{u32}
use iot_yk.Security.{SessionKeys}

pub record SecurityCtx : Type 0 where
  pub device_private_key : List ℕ
  pub device_public_key : List ℕ
  pub server_public_key : List ℕ
  pub ota_verify_key : List ℕ
  pub ephemeral_private : List ℕ
  pub ephemeral_public : List ℕ
  pub session : SessionKeys

-- `memset(ctx, 0, sizeof(*ctx))`
unfoldable pub blank_ctx : SecurityCtx
blank_ctx = record {
  device_private_key = replicate 32 0;
  device_public_key = replicate 65 0;
  server_public_key = replicate 65 0;
  ota_verify_key = replicate 65 0;
  ephemeral_private = replicate 32 0;
  ephemeral_public = replicate 65 0;
  session = record { session_key = replicate 32 0; session_id = 0; key_ver = 0; active = false };
}

-- A new key pair, exported: `none` for an export that fails.
pub record NewPair : Type 0 where
  pub private : Option (List ℕ)
  pub public : Option (List ℕ)

-- What a call that may fail leaves in an array.
abbrev pub or_kept : List ℕ → Option (List ℕ) → List ℕ
or_kept kept none = kept
or_kept kept (some bytes) = bytes

-- The blobs that `ykp_security_init` stores: the key and its bytes.
abbrev pub stored_if : String → Option (List ℕ) → List (String × List ℕ)
stored_if key none = []
stored_if key (some bytes) = (key, bytes) ∷ []

-- A device pair is made where no private key is stored; `made` is none if that fails.
unfoldable pub make_device_pair :
    Option NewPair → SecurityCtx → Option (SecurityCtx × List (String × List ℕ))
make_device_pair none ctx = none
make_device_pair (some pair) ctx = some (
  record ctx {
    device_private_key = or_kept ctx.device_private_key pair.private;
    device_public_key = or_kept ctx.device_public_key pair.public;
  },
  stored_if "private_key" pair.private ++ stored_if "public_key" pair.public,
)

-- The three public keys, from the store.
unfoldable pub load_public : (String → Option (List ℕ)) → SecurityCtx → SecurityCtx
load_public blob ctx = record ctx {
  device_public_key = or_kept ctx.device_public_key (blob "public_key");
  server_public_key = or_kept ctx.server_public_key (blob "server_pub_key");
  ota_verify_key = or_kept ctx.ota_verify_key (blob "ota_verify_key");
}

-- The context and the blobs stored, or `none` for false. `blob_after` is the store once the blobs
-- are written.
unfoldable pub ykp_security_init :
    Bool
    → (String → Option (List ℕ))
    → (List (String × List ℕ) → String → Option (List ℕ))
    → Option NewPair
    → Option (SecurityCtx × List (String × List ℕ))
unfolding make_device_pair load_public
ykp_security_init crypto_ok blob blob_after made =
    let own : Option (SecurityCtx × List (String × List ℕ)) = elim (blob "private_key") [
      | some key ↦ some (record blank_ctx { device_private_key = key }, [])
      | none ↦ make_device_pair made blank_ctx
    ] in
    let loaded : Option (SecurityCtx × List (String × List ℕ)) = elim own [
      | none ↦ none
      | some r ↦ some (load_public (blob_after r.1) r.0, r.1)
    ] in
    if crypto_ok then loaded else none

-- The answer, the context, and the offset of the memory pool.
unfoldable pub gen_ephemeral : Option NewPair → SecurityCtx → Bool × SecurityCtx × ℕ
gen_ephemeral none ctx = (false, ctx, 0)
gen_ephemeral (some pair) ctx = elim pair.private [
  | none ↦ (false, ctx, 0)
  | some private ↦ elim pair.public [
    | none ↦ (false, record ctx { ephemeral_private = private }, 0)
    | some public ↦ (true, record ctx { ephemeral_private = private; ephemeral_public = public }, 0)
  ]
]

module _ (import_key : List ℕ → Bool) where
  -- `agree` is `psa_raw_key_agreement` of a private and a public key. `hkdf`, on the secret and the
  -- salt, gives the status and what is in the key's memory, whatever the status.
  module _ (agree : List ℕ → List ℕ → Option (List ℕ))
      (hkdf : List ℕ → List ℕ → Bool × List ℕ) where
    -- The key from the shared secret.
    unfoldable pub derive_from : List ℕ → ℕ → SecurityCtx → Option (List ℕ) → Bool × SecurityCtx
    derive_from nonce session_id ctx none = (false, ctx)
    derive_from nonce session_id ctx (some shared_secret) =
        let (ok, key) = hkdf shared_secret nonce in
        let keys = ctx.session in
        let derived = record keys {
          session_key = key;
          session_id = session_id;
          key_ver = u32 (keys.key_ver + 1);
          active = true;
        } in
        if not (import_key shared_secret)
        then (false, ctx)
        else if not ok
        then (false, record ctx { session = record keys { session_key = key } })
        else (true, record ctx { session = derived })

    unfoldable pub derive_session_key : List ℕ → List ℕ → ℕ → SecurityCtx → Bool × SecurityCtx
    unfolding derive_from
    derive_session_key server_ephemeral_pub nonce session_id ctx =
        if not (import_key ctx.ephemeral_private)
        then (false, ctx)
        else derive_from nonce session_id ctx (agree ctx.ephemeral_private server_ephemeral_pub)

  module _ (sha256 : List ℕ → Option (List ℕ)) where
    -- `sign_hash` is `psa_sign_hash`, on the private key and the hash; `none` is false.
    unfoldable pub sign :
        (List ℕ → List ℕ → Option (List ℕ)) → SecurityCtx → List ℕ → Option (List ℕ)
    sign sign_hash ctx bytes = elim (sha256 bytes) [
      | none ↦ none
      | some hash ↦
          if not (import_key ctx.device_private_key)
          then none
          else sign_hash ctx.device_private_key hash
    ]

    -- `verify_hash` is `psa_verify_hash`, on the public key, the hash and the signature.
    unfoldable pub verify : (List ℕ → List ℕ → List ℕ → Bool) → SecurityCtx → List ℕ → List ℕ → Bool
    verify verify_hash ctx bytes sig =
        let checked : Bool = elim (sha256 bytes) [
          | none ↦ false
          | some hash ↦ import_key ctx.ota_verify_key && verify_hash ctx.ota_verify_key hash sig
        ] in
        if ltb (length sig) 64 then false else checked
