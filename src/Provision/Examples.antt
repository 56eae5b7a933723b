-- ===== src/Provision/Examples.antt =====
-- Tests of the provisioning model, and the theorems at concrete inputs.
use iot_yk.Base.{
  ℕ, ◌≡◌, refl, true, false, Option, none, some, List, [], ◌∷◌, if◌then◌else◌, replicate, arith,
}
use text.Mathlib.Text.{◌==◌ as str_eq}
use iot_yk.Base.{length-replicate}
use iot_yk.Base.Bytes.{done}
use iot_yk.Base.Looking.{Ends}
use iot_yk.Io.{codes}
use iot_yk.Provision.{Rx, quiet, command, gatt_write, queue_send}
use iot_yk.Provision.Buffer.{Holds, cut, command_of}
use iot_yk.Provision.Lines.{receive, received_line}
use iot_yk.Provision.Framed.{Kept, json_task-Kept, receive_all}
use iot_yk.Provision.Messages.{Sent, AllSent, Delivered, run_turns-Delivered}
use iot_yk.Provision.Queue.{Turn, write, serve}
use iot_yk.Provision.Session.{
  Session, Prov, Act, prov_session_clear, cleared_session, hex_digits, hex_digit,
}
use iot_yk.Provision.Commands.{Root, Name, name_of, do_confirm}
use iot_yk.Provision.Events.{Event, line, ssl_checked, run}
use iot_yk.Provision.Creds.{no_creds, IsEarned}
use iot_yk.Provision.Lifecycle.{decimal}
use iot_yk.Provision.Entered.{committed, commit_acts}
use iot_yk.Provision.Committed.{last_creds, do_confirm-Commits}

abbrev empty_rx : Rx
empty_rx = record { buffer = replicate 4096 0; filled = 0 }

empty_rx-Holds : Holds [] empty_rx
empty_rx-Holds = record {
  behind = replicate 4096 0;
  bytes = refl;
  counted = refl;
  size = length-replicate {A = ℕ} 4096 0;
  room = omega arith;
}

-- "{}" in two writes, and "[]|7" in one.
abbrev two_lines : List Sent
two_lines =
    record { line = b'{' ∷ b'}' ∷ []; writes = (b'{' ∷ []) ∷ (b'}' ∷ b'\n' ∷ []) ∷ [] }
    ∷ record {
      line = b'[' ∷ b']' ∷ b'|' ∷ b'7' ∷ [];
      writes = (b'[' ∷ b']' ∷ b'|' ∷ b'7' ∷ b'\n' ∷ []) ∷ [];
    }
    ∷ []

two_lines-AllSent : AllSent two_lines
two_lines-AllSent = (
  record {
    plain = (refl, refl, (refl, refl, tt));
    room = omega arith;
    cut_up = refl;
    fits = omega arith;
  },
  (
    record {
      plain = (refl, refl, (refl, refl, (refl, refl, (refl, refl, tt))));
      room = omega arith;
      cut_up = refl;
      fits = omega arith;
    },
    tt,
  ),
)

-- The task takes the first write before the others come.
abbrev turns : List Turn
turns =
    write (b'{' ∷ [])
    ∷ serve
    ∷ write (b'}' ∷ b'\n' ∷ [])
    ∷ serve
    ∷ serve
    ∷ write (b'[' ∷ b']' ∷ b'|' ∷ b'7' ∷ b'\n' ∷ [])
    ∷ serve
    ∷ []

run_turns-Delivered_example : Delivered empty_rx turns two_lines
run_turns-Delivered_example =
    run_turns-Delivered empty_rx turns two_lines empty_rx-Holds two_lines-AllSent refl
      (omega arith, (omega arith, (omega arith, refl)))

-- The fifth of five writes in a row is lost.
fifth_write-lost :
    gatt_write true (b'5' ∷ []) ((b'1' ∷ []) ∷ (b'2' ∷ []) ∷ (b'3' ∷ []) ∷ (b'4' ∷ []) ∷ [])
    ≡ (b'1' ∷ []) ∷ (b'2' ∷ []) ∷ (b'3' ∷ []) ∷ (b'4' ∷ []) ∷ []
unfolding gatt_write queue_send
fifth_write-lost = refl

json_task-Kept_example : Kept empty_rx [] ((b'{' ∷ []) ∷ (b'}' ∷ b'\n' ∷ b'[' ∷ []) ∷ [])
json_task-Kept_example =
    json_task-Kept empty_rx [] ((b'{' ∷ []) ∷ (b'}' ∷ b'\n' ∷ b'[' ∷ []) ∷ []) empty_rx-Holds

-- A reader that takes every text for this object.
abbrev home : Root
home key =
    if str_eq key "cmd"
    then some (record { valuestring = some (codes "send_creds"); valueint = 0 })
    else if str_eq key "ssid"
    then some (record { valuestring = some (b'h' ∷ b'i' ∷ []); valueint = 0 })
    else if str_eq key "psk"
    then some (record { valuestring = some (b'p' ∷ []); valueint = 0 })
    else if str_eq key "host"
    then some (record { valuestring = some (b'x' ∷ []); valueint = 0 })
    else if str_eq key "port"
    then some (record { valuestring = none; valueint = 443 })
    else none

abbrev reader : List ℕ → Option Root
reader text = some home

abbrev some_events : List Event
some_events = line (record { json = []; hmac = none }) 0 5 ∷ ssl_checked false true ∷ []

abbrev no_crc : Session → ℕ
no_crc s = 0

abbrev before : Prov
before = record {
  session = cleared_session no_crc;
  cert = record { buffer = some []; accumulated = 0 };
  scan_ack_received = false;
  conn_handle = some 1;
  ble_connected = true;
  notify_enabled = true;
}

do_confirm-Commits_example :
    Ends
      (λ (r : Prov × List Act).
        (do_confirm no_crc 3 r.0
          ≡ done (
            committed r.0,
            commit_acts 3
                (last_creds reader some_events no_creds)
                r.0.session.ssl_result
                r.0.cert.buffer,
          ))
        × IsEarned (last_creds reader some_events no_creds).cert_good r.0.session.ssl_result)
      (run no_crc reader some_events (prov_session_clear no_crc before))
do_confirm-Commits_example = do_confirm-Commits no_crc reader before some_events 3 (
  record {
    ssid_text = (b'h' ∷ b'i' ∷ [], refl);
    psk_text = (b'p' ∷ [], refl);
    host_text = (b'x' ∷ [], refl);
  },
  (tt, tt),
)

-- The second line of a write waits for the next message.
second_waits : receive_all [] ((b'{' ∷ b'}' ∷ b'\n' ∷ b'[' ∷ b'\n' ∷ []) ∷ (b'x' ∷ []) ∷ []) ≡ (
  command (record { json = b'{' ∷ b'}' ∷ []; hmac = none })
      ∷ command (record { json = b'[' ∷ []; hmac = none })
      ∷ [],
  b'x' ∷ [],
)
unfolding receive_all receive received_line cut command_of
second_waits = refl

-- A zero hides every line behind it.
zero_hides :
    receive_all [] ((0 ∷ b'{' ∷ b'}' ∷ b'\n' ∷ []) ∷ [])
    ≡ (quiet ∷ [], 0 ∷ b'{' ∷ b'}' ∷ b'\n' ∷ [])
unfolding receive_all receive received_line cut command_of
zero_hides = refl

-- A bar splits a line.
bar_splits :
    command_of (b'[' ∷ b']' ∷ b'|' ∷ b'7' ∷ [])
    ≡ record { json = b'[' ∷ b']' ∷ []; hmac = some (b'7' ∷ []) }
unfolding command_of cut
bar_splits = refl

-- `%08lx%08lx`
nonce_text : hex_digits 8 0xBEEF ≡ b'0' ∷ b'0' ∷ b'0' ∷ b'0' ∷ b'b' ∷ b'e' ∷ b'e' ∷ b'f' ∷ []
unfolding hex_digits hex_digit
nonce_text = refl

cmd_name : name_of (codes "confirm_provision") ≡ Name.confirm_provision
unfolding name_of codes
cmd_name = refl

-- `%lu`
id_text : decimal 10 1203 ≡ codes "1203"
unfolding decimal codes
id_text = refl
