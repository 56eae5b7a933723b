-- ===== src/Provision/Committed.antt =====
-- What the provisioning of esp32-firmware/main/config/ble_provision.c stores, whatever happens before:
-- the credentials that the phone entered last.
use iot_yk.Provision.Commands.{handle_parsed}
use iot_yk.Base.Bytes.{strncpy}
use iot_yk.Base.{
  ℕ, ◌≡◌, refl, Bool, true, false, not, ◌&&◌, Option, none, some, List, [], ◌∷◌, ◌++◌,
  if◌then◌else◌, ltb, arith,
}
use iot_yk.Base.Bytes.{done, ◌>>=◌}
use iot_yk.Base.Looking.{Ends, Ends-then, Ends-weaken}
use iot_yk.Provision.Session.{Session, Prov, Act, prov_session_clear, cleared_session, cleared_cert}
use iot_yk.Provision.Commands.{
  Root, Name, name_of, string_of, seq_of, do_ping, do_confirm, obey, handle_cmd,
  process_json_command,
}
use iot_yk.Provision.Events.{
  Event, line, connect, disconnect, subscribe, wifi_connect_begins, wifi_connect_ends, scan_begins,
  scan_ends, validation_begins, ssl_checked, udp_checked, gap_connect, gap_disconnect,
  gap_subscribe, wifi_connect_begin, wifi_connect_end, scan_begin, scan_end, validation_begin,
  ssl_check, udp_check, is_probe, ssl_result_of, step, run,
}
use iot_yk.Provision.Creds.{Creds, no_creds, IsEarned, Agrees, Keeps, copy_string-Held}
use iot_yk.Provision.Entered.{
  Texts, named_creds, committed, commit_acts, do_confirm_lem, do_send_wifi-Keeps,
  do_send_server-Keeps, do_send_creds-Keeps, do_set_cert-Keeps, cleared_buffer-Fits,
}

abbrev cmd_creds : Option (List ℕ) → Root → Creds → Creds
cmd_creds none root c = c
cmd_creds (some cmd) root c = named_creds (name_of cmd) root c

abbrev parsed_creds : Option Root → Creds → Creds
parsed_creds none c = c
parsed_creds (some root) c = cmd_creds (string_of (root "cmd")) root c

abbrev ParsedTexts : Option Root → Type 0
ParsedTexts none = Unit
ParsedTexts (some root) = Texts root

module _ (cjson : List ℕ → Option Root) where
  -- The credentials after an event: a disconnection forgets them, and a check of the certificates
  -- is noted.
  abbrev pub event_creds : Event → Creds → Creds
  event_creds (line cmd now random) c = parsed_creds (cjson cmd.json) c
  event_creds disconnect c = no_creds
  event_creds (ssl_checked cert_good fallback_good) c = record c { cert_good = cert_good }
  event_creds _ c = c

  abbrev pub last_creds : List Event → Creds → Creds
  last_creds [] c = c
  last_creds (e ∷ es) c = last_creds es (event_creds e c)

  -- Where a command has an SSID, a password or a host, that is a string.
  abbrev pub EventTexts : Event → Type 0
  EventTexts (line cmd now random) = ParsedTexts (cjson cmd.json)
  EventTexts _ = Unit

  abbrev pub AllTexts : List Event → Type 0
  AllTexts [] = Unit
  AllTexts (e ∷ es) = EventTexts e × AllTexts es

module _ (session_crc : Session → ℕ) where
  obey-Keeps :
      (name : Name) (now random : ℕ) (root : Root) (seq : ℕ) (c : Creds) (p : Prov)
      → Texts root
      → Agrees c p
      → Keeps (named_creds name root c) (obey session_crc name now random root seq p)
  unfolding obey do_ping
  obey-Keeps Name.ping now random root seq c p t h = h
  obey-Keeps Name.query_state now random root seq c p t h = h
  obey-Keeps Name.scan_ack now random root seq c p t h = h
  obey-Keeps Name.send_wifi now random root seq c p t h =
      do_send_wifi-Keeps session_crc seq (root "ssid") (root "psk") c p t.ssid_text t.psk_text h
  obey-Keeps Name.send_server now random root seq c p t h =
      do_send_server-Keeps session_crc random seq (root "host") (root "port") (root "udp_port") c p
        t.host_text h
  obey-Keeps Name.send_creds now random root seq c p t h =
      do_send_creds-Keeps session_crc random seq (root "ssid") (root "psk") (root "host")
        (root "port") (root "udp_port") c p t.ssid_text t.psk_text t.host_text h
  obey-Keeps Name.rescan now random root seq c p t h = h
  obey-Keeps Name.set_cert now random root seq c p t h =
      do_set_cert-Keeps session_crc seq (root "chunk") (string_of (root "data")) c p h
  obey-Keeps Name.commit now random root seq c p t h = h
  obey-Keeps Name.report_ack now random root seq c p t h = h
  obey-Keeps Name.confirm_provision now random root seq c p t h =
      rw (do_confirm_lem session_crc seq c p h) h
  obey-Keeps Name.unknown now random root seq c p t h = h

  cleared-Agrees : (p : Prov) → Agrees no_creds (prov_session_clear session_crc p)
  unfolding prov_session_clear strncpy cleared_session cleared_cert
  cleared-Agrees p = (refl, refl, refl, refl, cleared_buffer-Fits p.cert.buffer, tt)

  gap_disconnect-Keeps :
      (c : Creds) (p : Prov) → Agrees c p → Keeps no_creds (gap_disconnect session_crc p)
  unfolding gap_disconnect
  gap_disconnect-Keeps c p h =
      cleared-Agrees
        (record p { conn_handle = none; ble_connected = false; notify_enabled = false })

  -- Only a certificate that is there and good earns `ca_ok`.
  earned :
      (has_cert good fallback_ok : Bool)
      → IsEarned good (ssl_result_of (has_cert && good) fallback_ok)
  earned true true fallback_ok = refl
  earned true false true = tt
  earned true false false = tt
  earned false good true = tt
  earned false good false = tt

  event_if :
      (c : Creds) (b : Bool) (x y : Prov × List Act)
      → Agrees c x.0
      → Agrees c y.0
      → Keeps c (if b then done x else done y)
  event_if c true x y h k = h
  event_if c false x y h k = k

  wifi_connect_begin-Keeps :
      (c : Creds) (p : Prov) → Agrees c p → Keeps c (wifi_connect_begin session_crc p)
  unfolding wifi_connect_begin
  wifi_connect_begin-Keeps c p h =
      rw
        (
          copy_string-Held 64 63 c.ssid p.session.temp_ssid (omega arith) h.0,
          copy_string-Held 64 63 c.psk p.session.temp_psk (omega arith) h.1,
        )
        h

  validation_begin-Keeps :
      (is_connected can_connect : Bool) (c : Creds) (p : Prov)
      → Agrees c p
      → Keeps c (validation_begin session_crc is_connected can_connect p)
  unfolding validation_begin
  validation_begin-Keeps is_connected can_connect c p h =
      rw
        (
          copy_string-Held 64 63 c.ssid p.session.temp_ssid (omega arith) h.0,
          copy_string-Held 64 63 c.psk p.session.temp_psk (omega arith) h.1,
          copy_string-Held 128 127 c.host p.session.temp_host (omega arith) h.2,
        )
        h

  handle_cmd-Keeps :
      (cmd : Option (List ℕ)) (root : Root) (now random : ℕ) (c : Creds) (p : Prov)
      → Texts root
      → Agrees c p
      → Keeps (cmd_creds cmd root c) (handle_cmd session_crc cmd now random root p)
  unfolding handle_cmd
  handle_cmd-Keeps none root now random c p t h = h
  handle_cmd-Keeps (some cmd) root now random c p t h =
      obey-Keeps (name_of cmd) now random root (seq_of (root "seq")) c p t h

  parsed-Keeps :
      (parsed : Option Root) (now random : ℕ) (c : Creds) (p : Prov)
      → ParsedTexts parsed
      → Agrees c p
      → Keeps (parsed_creds parsed c) (handle_parsed session_crc parsed now random p)
  unfolding handle_parsed
  parsed-Keeps none now random c p t h = h
  parsed-Keeps (some root) now random c p t h =
      handle_cmd-Keeps (string_of (root "cmd")) root now random c p t h

  module _ (cjson : List ℕ → Option Root) where
    step-Keeps :
        (e : Event) (c : Creds) (p : Prov)
        → EventTexts cjson e
        → Agrees c p
        → Keeps (event_creds cjson e c) (step session_crc cjson e p)
    unfolding step process_json_command gap_connect gap_subscribe wifi_connect_end scan_begin
        scan_end ssl_check udp_check
    step-Keeps (line cmd now random) c p t h = parsed-Keeps (cjson cmd.json) now random c p t h
    step-Keeps (connect ok handle) c p t h = event_if c ok _ _ h h
    step-Keeps disconnect c p t h = gap_disconnect-Keeps c p h
    step-Keeps (subscribe is_tx cur_notify now) c p t h = event_if c (is_tx && cur_notify) _ _ h h
    step-Keeps wifi_connect_begins c p t h = wifi_connect_begin-Keeps c p h
    step-Keeps (wifi_connect_ends ok ip rssi) c p t h = event_if c ok _ _ h h
    step-Keeps (scan_begins scan_buf) c p t h = h
    step-Keeps scan_ends c p t h = event_if c p.scan_ack_received _ _ h h
    step-Keeps (validation_begins is_connected can_connect) c p t h =
        validation_begin-Keeps is_connected can_connect c p h
    step-Keeps (ssl_checked cert_good fallback_good) c p t h =
        let has_cert = ltb 0 p.cert.accumulated in
        let result = earned has_cert cert_good (not (has_cert && cert_good) && fallback_good) in
        event_if (record c { cert_good = cert_good }) _ _ _ (h.0, h.1, h.2, h.3, h.4, result)
          (h.0, h.1, h.2, h.3, h.4, result)
    step-Keeps (udp_checked datagram) c p t h =
        event_if c (is_probe session_crc p.session.udp_nonce datagram) _ _ h h

    run-Keeps :
        (es : List Event) (c : Creds) (p : Prov)
        → AllTexts cjson es
        → Agrees c p
        → Keeps (last_creds cjson es c) (run session_crc cjson es p)
    unfolding run
    run-Keeps [] c p t h = h
    run-Keeps (e ∷ es) c p t h =
        Ends-then (λ (r : Prov × List Act). Agrees (event_creds cjson e c) r.0)
          (λ (r : Prov × List Act). Agrees (last_creds cjson (e ∷ es) c) r.0)
          (step session_crc cjson e p)
          (λ (first : Prov × List Act).
            run session_crc cjson es first.0 >>= λ later. done (later.0, first.1 ++ later.1))
          (step-Keeps e c p t.0 h)
          (λ first k.
            Ends-then (λ (r : Prov × List Act). Agrees (last_creds cjson (e ∷ es) c) r.0)
              (λ (r : Prov × List Act). Agrees (last_creds cjson (e ∷ es) c) r.0)
              (run session_crc cjson es first.0)
              (λ (later : Prov × List Act). done (later.0, first.1 ++ later.1))
              (run-Keeps es (event_creds cjson e c) first.0 t.1 k) (λ later l. l))

-- Whatever happens after the session is cleared, in whatever order (commands, in which the SSID,
-- the password and the host are strings where they are there, events of the BLE stack, and the
-- steps of the tasks, each run in one piece), no step leaves an array. A commit then stores the
-- SSID and the password entered last, cut to 63 bytes, the host and the port entered last, the host
-- cut to 127 bytes, and the text in the certificate's buffer, if there is any, where the result of
-- the check is `ca_ok`; and that result is there only if the last check since the last
-- disconnection found the phone's own certificate good. With nothing entered since the last
-- disconnection it stores empty texts.
pub do_confirm-Commits :
    (session_crc : Session → ℕ) (cjson : List ℕ → Option Root) (p : Prov) (es : List Event)
    (seq : ℕ)
    → AllTexts cjson es
    → Ends
        (λ (r : Prov × List Act).
          (do_confirm session_crc seq r.0
            ≡ done (
              committed r.0,
              commit_acts seq (last_creds cjson es no_creds) r.0.session.ssl_result r.0.cert.buffer,
            ))
          × IsEarned (last_creds cjson es no_creds).cert_good r.0.session.ssl_result)
        (run session_crc cjson es (prov_session_clear session_crc p))
do_confirm-Commits session_crc cjson p es seq t =
    Ends-weaken (λ (r : Prov × List Act). Agrees (last_creds cjson es no_creds) r.0)
      (λ (r : Prov × List Act).
        (do_confirm session_crc seq r.0
          ≡ done (
            committed r.0,
            commit_acts seq (last_creds cjson es no_creds) r.0.session.ssl_result r.0.cert.buffer,
          ))
        × IsEarned (last_creds cjson es no_creds).cert_good r.0.session.ssl_result)
      (run session_crc cjson es (prov_session_clear session_crc p))
      (λ r h. (do_confirm_lem session_crc seq (last_creds cjson es no_creds) r.0 h, h.5))
      (run-Keeps session_crc cjson es no_creds (prov_session_clear session_crc p) t
        (cleared-Agrees session_crc p))
