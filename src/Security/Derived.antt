-- ===== src/Security/Derived.antt =====
-- What becomes of the session keys when they are derived; ykp_security.c.
use iot_yk.Base.{
  ℕ, ◌+◌, ◌≡◌, inl, inr, refl, Bool, true, false, Option, none, some, List, Bool-cases,
}
use iot_yk.Base.Bytes.{u32}
use iot_yk.Security.Keys.{SecurityCtx, derive_from, derive_session_key}

module _ (import_key : List ℕ → Bool) (agree : List ℕ → List ℕ → Option (List ℕ))
    (hkdf : List ℕ → List ℕ → Bool × List ℕ) where
  -- True: no call failed, and it is the key of this secret and nonce, under the next version. False: the keys are as active
  -- as before, under the id and the version they had.
  abbrev pub Derives : List ℕ → List ℕ → ℕ → SecurityCtx → Bool × SecurityCtx → Type 0
  Derives server_pub nonce session_id ctx (true, ctx') =
      (secret : List ℕ) × (agree ctx.ephemeral_private server_pub ≡ some secret)
      × (import_key ctx.ephemeral_private ≡ true)
      × (import_key secret ≡ true)
      × ((hkdf secret nonce).0 ≡ true)
      × (ctx'.session ≡ record {
        session_key = (hkdf secret nonce).1;
        session_id = session_id;
        key_ver = u32 (ctx.session.key_ver + 1);
        active = true;
      })
  Derives server_pub nonce session_id ctx (false, ctx') =
      (ctx'.session.active ≡ ctx.session.active)
      × (ctx'.session.session_id ≡ ctx.session.session_id)
      × (ctx'.session.key_ver ≡ ctx.session.key_ver)

  derive_from-Derives :
      (server_pub nonce : List ℕ) (session_id : ℕ) (ctx : SecurityCtx) (shared : Option (List ℕ))
      → import_key ctx.ephemeral_private ≡ true
      → agree ctx.ephemeral_private server_pub ≡ shared
      → Derives server_pub nonce session_id ctx
          (derive_from import_key agree hkdf nonce session_id ctx shared)
  unfolding derive_from
  derive_from-Derives server_pub nonce session_id ctx none own e = (refl, refl, refl)
  derive_from-Derives server_pub nonce session_id ctx (some secret) own e =
      elim (Bool-cases (import_key secret)) [
        | inr refused ↦ rw refused (refl, refl, refl)
        | inl taken ↦ elim (Bool-cases (hkdf secret nonce).0) [
          | inr failed ↦ rw (taken, failed) (refl, refl, refl)
          | inl made ↦ rw (taken, made) (secret, e, own, taken, made, refl)
        ]
      ]

  -- A derivation that answers true had the private key and the agreed secret imported and a
  -- successful HKDF, and has the HKDF of that secret under the server's nonce for its key, the id of the challenge and the next version, and is active; one that answers false, at
  -- whichever step, leaves the id, the version and the flag of the keys as they were.
  pub derive-Derives :
      (server_pub nonce : List ℕ) (session_id : ℕ) (ctx : SecurityCtx)
      → Derives server_pub nonce session_id ctx
          (derive_session_key import_key agree hkdf server_pub nonce session_id ctx)
  unfolding derive_session_key
  derive-Derives server_pub nonce session_id ctx =
      elim (Bool-cases (import_key ctx.ephemeral_private)) [
        | inr refused ↦ rw refused (refl, refl, refl)
        | inl taken ↦ rw taken (
            derive_from-Derives server_pub nonce session_id ctx
              (agree ctx.ephemeral_private server_pub) taken refl)
      ]
