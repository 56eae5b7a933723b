-- ===== src/WebSocket/Cert.antt =====
-- The certificates that `ykp_ws_init` of esp32-firmware/main/transport/ykp_websocket.c trusts: one from
-- the stored configuration, cleaned and checked, and those built in. Strings are without their end;
-- `x509_parse` is mbedTLS's, on the bytes with their end.
use iot_yk.Base.{
  ℕ, zero, suc, ◌-◌, Bool, true, false, not, ◌&&◌, ◌||◌, Option, none, some, List, [], ◌∷◌, ◌++◌,
  ltb, ◌==◌, if◌then◌else◌, length, take, replicate,
}
use iot_yk.Base.Bytes.{Run, done, ◌>>=◌, write_at, strncpy}
use iot_yk.Io.{c_string, codes}
use iot_yk.WebSocket.Roots.{fallback_ca_pem}

-- `room` is what `clean_idx` is below the loop's bound.
unfoldable pub clean_loop : ℕ → List ℕ → List ℕ
clean_loop zero text = []
clean_loop (suc room) [] = []
clean_loop (suc room) (c ∷ []) = c ∷ []
clean_loop (suc room) (c ∷ d ∷ text) =
    let skipped = clean_loop room text in
    let copied = clean_loop room (d ∷ text) in
    if c == b'\\' && d == b'n' then b'\n' ∷ skipped else c ∷ copied

unfoldable pub ends_line : List ℕ → Bool
ends_line [] = false
ends_line (c ∷ []) = c == b'\n'
ends_line (c ∷ d ∷ text) = ends_line (d ∷ text)

unfoldable pub end_line : List ℕ → List ℕ
end_line text = if ltb 0 (length text) && not (ends_line text) then text ++ b'\n' ∷ [] else text

-- `cleaned_cert`, an array of 2048 bytes.
unfoldable pub clean : List ℕ → Run (List ℕ)
clean text =
    let cleaned = end_line (clean_loop (2048 - 2) text) in
    write_at 0 (cleaned ++ 0 ∷ []) (replicate 2048 0)

unfoldable pub starts_with : List ℕ → List ℕ → Bool
starts_with [] text = true
starts_with (p ∷ pat) [] = false
starts_with (p ∷ pat) (c ∷ text) = p == c && starts_with pat text

-- `strstr(text, pat) != NULL`
unfoldable pub contains : List ℕ → List ℕ → Bool
contains pat [] = starts_with pat []
contains pat (c ∷ text) = starts_with pat (c ∷ text) || contains pat text

unfoldable pub end_certificate : List ℕ
unfolding codes
end_certificate = codes "-----END CERTIFICATE-----"

-- `has_custom_cert`, `ssl_cert_buf`, and whether the stored certificate is erased.
pub record Custom : Type 0 where
  pub has_custom_cert : Bool
  pub ssl_cert_buf : List ℕ
  pub erased : Bool

module _ (x509_parse : List ℕ → Bool) where
  unfoldable pub judge : List ℕ → List ℕ → Custom
  judge buf cleaned =
      if not (contains end_certificate buf)
      then record { has_custom_cert = false; ssl_cert_buf = buf; erased = false }
      else if not (x509_parse (cleaned ++ 0 ∷ []))
      then record { has_custom_cert = false; ssl_cert_buf = buf; erased = true }
      else record { has_custom_cert = true; ssl_cert_buf = buf; erased = false }

  -- `none` where `nvs_config_get_str` answers false.
  unfoldable pub custom_cert : Option (List ℕ) → Run Custom
  custom_cert none = done (record { has_custom_cert = false; ssl_cert_buf = []; erased = false })
  custom_cert (some text) =
      if ltb 0 (length text)
      then (clean text >>= λ array.
          done (judge (c_string (strncpy 2048 (c_string array))) (c_string array)))
      else done (record { has_custom_cert = false; ssl_cert_buf = text; erased = false })

-- `strncpy` into `combined_cert_buf`, and its line's end.
unfoldable pub combined_start : Custom → List ℕ
combined_start custom =
    if custom.has_custom_cert
    then (let start = take (8192 - 1) custom.ssl_cert_buf in
        let len = length start in
        if ltb 0 len && not (ends_line start) && ltb len (8192 - 2)
        then start ++ b'\n' ∷ []
        else start)
    else []

-- `strncat` of the built-in certificates.
unfoldable pub combined : Custom → List ℕ
combined custom =
    let start = combined_start custom in start ++ take (8192 - length start - 1) fallback_ca_pem

-- `ws_cfg.cert_pem`, and whether the stored certificate is erased.
unfoldable pub cert_pem : (List ℕ → Bool) → Option (List ℕ) → Run (List ℕ × Bool)
cert_pem x509_parse stored =
    custom_cert x509_parse stored >>= λ custom. done (combined custom, custom.erased)
