-- ===== src/Provision/Entered.antt =====
-- What the commands of a phone make of the credentials in the session, in
-- esp32-firmware/main/config/ble_provision.c.
use iot_yk.Base.{
  ℕ, ◌+◌, ◌≡◌, inl, inr, refl, Bool, true, Option, none, some, List, [], ◌∷◌, ◌++◌, ltb, ◌==◌,
  Bool-cases, length, length-append, take, arith,
}
use iot_yk.Base.Bytes.{Run, done, u16}
use iot_yk.Base.{lt→ltb, ltb→lt}
use iot_yk.Base.Looking.{Ends, Ends-then}
use iot_yk.Io.{c_string}
use iot_yk.Provision.Session.{
  ProvState, Session, SslResult, Cert, Prov, Act, Notice, update_crc, cleared_buffer,
}
use iot_yk.Provision.Commands.{
  Item, Root, Name, set_wifi, set_server, do_send_wifi, do_send_server, do_send_creds, first_chunk,
  append_part, do_set_cert, store_cert, do_confirm,
}
use iot_yk.Provision.Creds.{Creds, CertFits, Agrees, Keeps, copy_value-Held, copy_string-Held}

-- A value that is there is a string.
abbrev pub IsText : Option Item → Type 0
IsText none = Unit
IsText (some item) = (str : List ℕ) × (item.valuestring ≡ some str)

abbrev pub text_of : Option (List ℕ) → List ℕ
text_of none = []
text_of (some str) = str

abbrev pub wifi_creds : Option Item → Option Item → Creds → Creds
wifi_creds (some ssid) (some psk) c = record c {
  ssid = text_of ssid.valuestring;
  psk = text_of psk.valuestring;
}
wifi_creds (some ssid) none c = c
wifi_creds none psk c = c

abbrev pub server_creds : Option Item → Option Item → Creds → Creds
server_creds (some host) (some port) c = record c {
  host = text_of host.valuestring;
  port = u16 port.valueint;
}
server_creds (some host) none c = c
server_creds none port c = c

-- All four are there, or nothing changes.
abbrev pub all_creds : Option Item → Option Item → Option Item → Option Item → Creds → Creds
all_creds (some ssid) (some psk) (some host) (some port) c =
    server_creds (some host) (some port) (wifi_creds (some ssid) (some psk) c)
all_creds (some ssid) (some psk) (some host) none c = c
all_creds (some ssid) (some psk) none port c = c
all_creds (some ssid) none host port c = c
all_creds none psk host port c = c

abbrev pub named_creds : Name → Root → Creds → Creds
named_creds Name.send_wifi root c = wifi_creds (root "ssid") (root "psk") c
named_creds Name.send_server root c = server_creds (root "host") (root "port") c
named_creds Name.send_creds root c =
    all_creds (root "ssid") (root "psk") (root "host") (root "port") c
named_creds _ root c = c

pub cleared_buffer-Fits : (buffer : Option (List ℕ)) → CertFits (cleared_buffer buffer) 0
cleared_buffer-Fits none = refl
cleared_buffer-Fits (some text) = (refl, omega arith)

module _ (session_crc : Session → ℕ) where
  pub do_send_wifi-Keeps :
      (seq : ℕ) (ssid psk : Option Item) (c : Creds) (p : Prov)
      → IsText ssid
      → IsText psk
      → Agrees c p
      → Keeps (wifi_creds ssid psk c) (do_send_wifi session_crc seq ssid psk p)
  unfolding do_send_wifi set_wifi update_crc
  do_send_wifi-Keeps seq (some ssid) (some psk) c p (s, e) (t, f) h =
      rw
        (
          copy_value-Held 63 ssid.valuestring s c.ssid p.session.temp_ssid e h.0,
          copy_value-Held 63 psk.valuestring t c.psk p.session.temp_psk f h.1,
        )
        (rw e refl, rw f refl, h.2, h.3, h.4, h.5)
  do_send_wifi-Keeps seq (some ssid) none c p i j h = h
  do_send_wifi-Keeps seq none psk c p i j h = h

  pub do_send_server-Keeps :
      (random seq : ℕ) (host port uport : Option Item) (c : Creds) (p : Prov)
      → IsText host
      → Agrees c p
      → Keeps (server_creds host port c) (do_send_server session_crc random seq host port uport p)
  unfolding do_send_server set_server update_crc
  do_send_server-Keeps random seq (some host) (some port) uport c p (s, e) h =
      rw (copy_value-Held 127 host.valuestring s c.host p.session.temp_host e h.2)
        (h.0, h.1, rw e refl, refl, h.4, h.5)
  do_send_server-Keeps random seq (some host) none uport c p i h = h
  do_send_server-Keeps random seq none port uport c p i h = h

  pub do_send_creds-Keeps :
      (random seq : ℕ) (ssid psk host port uport : Option Item) (c : Creds) (p : Prov)
      → IsText ssid
      → IsText psk
      → IsText host
      → Agrees c p
      → Keeps
          (all_creds ssid psk host port c)
          (do_send_creds session_crc random seq ssid psk host port uport p)
  unfolding do_send_creds set_wifi set_server update_crc
  do_send_creds-Keeps random seq (some ssid) (some psk) (some host) (some port) uport c p (s, e)
        (t, f) (u, g) h =
      rw
        (
          copy_value-Held 63 ssid.valuestring s c.ssid p.session.temp_ssid e h.0,
          copy_value-Held 63 psk.valuestring t c.psk p.session.temp_psk f h.1,
          copy_value-Held 127 host.valuestring u c.host p.session.temp_host g h.2,
        )
        (rw e refl, rw f refl, rw g refl, refl, h.4, h.5)
  do_send_creds-Keeps random seq (some ssid) (some psk) (some host) none uport c p i j k h = h
  do_send_creds-Keeps random seq (some ssid) (some psk) none port uport c p i j k h = h
  do_send_creds-Keeps random seq (some ssid) none host port uport c p i j k h = h
  do_send_creds-Keeps random seq none psk host port uport c p i j k h = h

  abbrev CertAdded : Run (Cert × Bool) → Type 0
  CertAdded m = Ends (λ (r : Cert × Bool). CertFits r.0.buffer r.0.accumulated) m

  append_part-Fits :
      (part : List ℕ) (buffer : Option (List ℕ)) (accumulated : ℕ)
      → CertFits buffer accumulated
      → CertAdded (append_part part buffer accumulated)
  unfolding append_part
  append_part-Fits part none accumulated h = h
  append_part-Fits part (some text) accumulated (e, room) =
      elim (Bool-cases (ltb (accumulated + length part) 8191)) [
        | inl fits ↦
            let short = ltb→lt (accumulated + length part) 8191 fits in
            let safe : ltb (length text + length part) 8192 ≡ true =
              lt→ltb (length text + length part) 8192 (omega arith) in
            rw (fits, safe)
              (
                omega (arith, length-append {0} text part),
                omega (arith, length-append {0} text part),
              )
        | inr full ↦ rw full (e, room)
      ]

  first_chunk-Fits :
      (chunk : ℕ) (cert : Cert)
      → CertFits cert.buffer cert.accumulated
      → CertFits (first_chunk chunk cert).buffer (first_chunk chunk cert).accumulated
  unfolding first_chunk
  first_chunk-Fits chunk cert h = elim (Bool-cases (chunk == 1)) [
    | inl first ↦ rw first (cleared_buffer-Fits cert.buffer)
    | inr other ↦ rw other h
  ]

  pub do_set_cert-Keeps :
      (seq : ℕ) (chunk : Option Item) (part : Option (List ℕ)) (c : Creds) (p : Prov)
      → Agrees c p
      → Keeps c (do_set_cert session_crc seq chunk part p)
  unfolding do_set_cert
  do_set_cert-Keeps seq (some chunk) (some part) c p h =
      let cert = first_chunk chunk.valueint p.cert in
      Ends-then (λ (r : Cert × Bool). CertFits r.0.buffer r.0.accumulated)
        (λ (r : Prov × List Act). Agrees c r.0) (append_part part cert.buffer cert.accumulated)
        (λ (added : Cert × Bool). done (
          record p { cert = added.0 },
          Act.notify (Notice.set_cert_acked chunk.valueint added.1 seq) ∷ [],
        ))
        (append_part-Fits part cert.buffer cert.accumulated
          (first_chunk-Fits chunk.valueint p.cert h.4))
        (λ added fits. (h.0, h.1, h.2, h.3, fits, h.5))
  do_set_cert-Keeps seq (some chunk) none c p h = h
  do_set_cert-Keeps seq none part c p h = h

-- The certificate that a commit stores.
abbrev cert_act : Option (List ℕ) → List Act
cert_act none = []
cert_act (some []) = []
cert_act (some (x ∷ text)) = Act.nvs_set_str "ssl_cert" (x ∷ text) ∷ []

abbrev pub stored_cert : SslResult → Option (List ℕ) → List Act
stored_cert SslResult.unset buffer = []
stored_cert SslResult.ca_ok buffer = cert_act buffer
stored_cert SslResult.ca_failed_fallback_ok buffer = []
stored_cert SslResult.ca_failed_fallback_failed buffer = []

store_cert-stored :
    (result : SslResult) (buffer : Option (List ℕ)) (accumulated : ℕ)
    → CertFits buffer accumulated
    → store_cert result (record { buffer = buffer; accumulated = accumulated })
      ≡ done (stored_cert result buffer)
unfolding store_cert
store_cert-stored SslResult.unset buffer accumulated h = refl
store_cert-stored SslResult.ca_ok none accumulated h = rw h refl
store_cert-stored SslResult.ca_ok (some []) accumulated h = rw h.0 refl
store_cert-stored SslResult.ca_ok (some (x ∷ text)) accumulated h =
    rw (lt→ltb 0 accumulated (omega arith)) refl
store_cert-stored SslResult.ca_failed_fallback_ok buffer accumulated h = refl
store_cert-stored SslResult.ca_failed_fallback_failed buffer accumulated h = refl

-- What a commit calls: the credentials, cut to what the arrays hold, and the certificate.
abbrev pub commit_acts : ℕ → Creds → SslResult → Option (List ℕ) → List Act
commit_acts seq c result buffer =
    (Act.nvs_set_str "wifi_ssid" (take 63 (c_string c.ssid))
      ∷ Act.nvs_set_str "wifi_password" (take 63 (c_string c.psk))
      ∷ Act.nvs_set_str "server_url" (take 127 (c_string c.host))
      ∷ Act.nvs_set_u32 "control_port" c.port
      ∷ stored_cert result buffer)
    ++ Act.notify (Notice.commit_ok seq) ∷ Act.restart ∷ []

abbrev pub committed : Prov → Prov
committed p = record p {
  session = record p.session { state = ProvState.nvs_commit; commit_started = true };
}

pub do_confirm_lem :
    (session_crc : Session → ℕ) (seq : ℕ) (c : Creds) (p : Prov)
    → Agrees c p
    → do_confirm session_crc seq p
      ≡ done (committed p, commit_acts seq c p.session.ssl_result p.cert.buffer)
unfolding do_confirm
do_confirm_lem session_crc seq c p h =
    rw
      (
        copy_string-Held 64 63 c.ssid p.session.temp_ssid (omega arith) h.0,
        copy_string-Held 64 63 c.psk p.session.temp_psk (omega arith) h.1,
        copy_string-Held 128 127 c.host p.session.temp_host (omega arith) h.2,
        store_cert-stored p.session.ssl_result p.cert.buffer p.cert.accumulated h.4,
        h.3,
      )
      refl

-- The values that the commands read as strings are strings, where they are there.
pub record Texts (root : Root) : Type 0 where
  pub ssid_text : IsText (root "ssid")
  pub psk_text : IsText (root "psk")
  pub host_text : IsText (root "host")
