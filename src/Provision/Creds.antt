-- ===== src/Provision/Creds.antt =====
-- The credentials that a phone has entered, as esp32-firmware/main/config/ble_provision.c holds them in
-- the arrays of its session.
use iot_yk.Base.{
  ℕ, zero, suc, ◌≤◌, ◌<◌, ◌≡◌, inl, inr, refl, ap, Bool, true, false, Option, none, some, List, [],
  ◌∷◌, ◌++◌, ltb, ◌==◌, Bool-cases, length, take, drop, replicate, arith,
}
use iot_yk.Base.{lt→ltb, length-take}
use iot_yk.Base.Bytes.{done, strncpy, drop-append}
use iot_yk.Base.Looking.{Ends}
use mathlib.Core.Path.{subst}
use iot_yk.Io.{c_string}
use iot_yk.Report.Header.{length-strncpy}
use iot_yk.Provision.Session.{Prov, Act, SslResult, copy_value, copy_string}
use iot_yk.Provision.Commands.{Step}

-- `cert_good` is whether the last check found the phone's own certificate good.
pub record Creds : Type 0 where
  pub ssid : List ℕ
  pub psk : List ℕ
  pub host : List ℕ
  pub port : ℕ
  pub cert_good : Bool

abbrev pub no_creds : Creds
no_creds = record { ssid = []; psk = []; host = []; port = 0; cert_good = false }

-- An array of `n + 1` bytes that holds the first `n` bytes of a string, and a zero.
abbrev pub Held : ℕ → List ℕ → List ℕ → Type 0
Held n str array = array ≡ strncpy n str ++ 0 ∷ []

abbrev pub CertFits : Option (List ℕ) → ℕ → Type 0
CertFits none accumulated = accumulated ≡ 0
CertFits (some text) accumulated = (accumulated ≡ length text) × (length text ≤ 8190)

-- The result `ca_ok` is that of a check that found the phone's own certificate good.
abbrev pub IsEarned : Bool → SslResult → Type 0
IsEarned good SslResult.ca_ok = good ≡ true
IsEarned good SslResult.unset = Unit
IsEarned good SslResult.ca_failed_fallback_ok = Unit
IsEarned good SslResult.ca_failed_fallback_failed = Unit

-- The session holds the credentials, cut to its arrays, the certificate is as long as counted, and
-- the result of the check is earned.
abbrev pub Agrees : Creds → Prov → Type 0
Agrees c p =
    Held 63 c.ssid p.session.temp_ssid
    × Held 63 c.psk p.session.temp_psk
    × Held 127 c.host p.session.temp_host
    × (p.session.temp_port ≡ c.port)
    × CertFits p.cert.buffer p.cert.accumulated
    × IsEarned c.cert_good p.session.ssl_result

abbrev pub Keeps : Creds → Step → Type 0
Keeps c m = Ends (λ (r : Prov × List Act). Agrees c r.0) m

pub copy_value-Held :
    (n : ℕ) (value : Option (List ℕ)) (str before old : List ℕ)
    → value ≡ some str
    → Held n before old
    → copy_value n value old ≡ done (strncpy n str ++ 0 ∷ [])
unfolding copy_value
copy_value-Held n value str before old e h =
    let left : drop n (strncpy n before ++ 0 ∷ []) ≡ 0 ∷ [] =
      subst (λ (k : ℕ). drop k (strncpy n before ++ 0 ∷ []) ≡ 0 ∷ []) (length-strncpy n before)
        (drop-append (strncpy n before) (0 ∷ [])) in
    rw (e, h, left) refl

pub c_string-padded :
    (n m : ℕ) (str : List ℕ)
    → n ≤ m
    → c_string (take n (str ++ replicate m 0) ++ 0 ∷ []) ≡ take n (c_string str)
unfolding c_string
c_string-padded zero m str h = refl
c_string-padded (suc n) zero str h = absurd (omega arith)
c_string-padded (suc n) (suc m) [] h = refl
c_string-padded (suc n) (suc m) (x ∷ str) h = elim (Bool-cases (x == 0)) [
  | inl end ↦ rw end refl
  | inr more ↦ rw more (ap (◌∷◌ x) (c_string-padded n (suc m) str (omega arith)))
]

pub copy_string-Held :
    (k n : ℕ) (str array : List ℕ)
    → n < k
    → Held n str array
    → copy_string k array ≡ done (take n (c_string str))
unfolding copy_string strncpy
copy_string-Held k n str array h e =
    let read = c_string-padded n n str (omega arith) in
    let fits : ltb (length (take n (c_string str))) k ≡ true =
      lt→ltb (length (take n (c_string str))) k (omega (arith, length-take n (c_string str))) in
    rw (e, read, fits) refl
