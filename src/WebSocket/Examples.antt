-- ===== src/WebSocket/Examples.antt =====
-- Tests of the WebSocket model, and the theorems at concrete inputs.
use iot_yk.Base.{ℕ, ◌≡◌, refl, Bool, true, some, List, [], ◌∷◌, arith}
use iot_yk.Base.Bytes.{done}
use iot_yk.Io.{codes}
use iot_yk.WebSocket.Cert.{
  clean_loop, ends_line, end_line, cert_pem, contains, starts_with, end_certificate,
}
use iot_yk.WebSocket.Cleaned.{IsClean}
use iot_yk.WebSocket.Trusted.{trusted_of, cert_pem-trusted}

-- "a\nb" with the end of its line spelled out.
abbrev spelled : List ℕ
spelled = b'a' ∷ b'\\' ∷ b'n' ∷ b'b' ∷ []

abbrev any_cert : List ℕ → Bool
any_cert text = true

cert_pem-trusted_example :
    IsClean (end_line (clean_loop 2046 spelled))
    × (cert_pem any_cert (some spelled)
        ≡ done (trusted_of any_cert (end_line (clean_loop 2046 spelled))))
cert_pem-trusted_example =
    cert_pem-trusted any_cert spelled (omega arith) (refl, (refl, (refl, (refl, tt))))

cleaned_up : end_line (clean_loop 2046 spelled) ≡ b'a' ∷ b'\n' ∷ b'b' ∷ b'\n' ∷ []
unfolding end_line clean_loop ends_line
cleaned_up = refl

marked : contains end_certificate (codes "xx-----END CERTIFICATE-----y") ≡ true
unfolding contains starts_with end_certificate codes
marked = refl
