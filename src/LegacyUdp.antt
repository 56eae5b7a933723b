-- ===== src/LegacyUdp.antt =====
-- esp32-firmware/main/transport/legacy_udp.c: the UDP server of the old app, one round of its loop
-- for each datagram. AES-GCM and `esp_random` are parameters, the clock is an argument; the
-- socket's set-up and log lines are left out. Numbers go over the wire least byte first.
pub mod Key
pub mod Replays
pub mod Again
pub mod Once
pub mod Rate
mod Examples
use iot_yk.Base.{
  ℕ, ◌+◌, ◌-◌, ◌*◌, ◌/◌, ◌%◌, ◌^◌, Bool, false, not, ◌&&◌, Option, none, some, List, [], ◌∷◌, ◌++◌,
  ltb, leb, ◌==◌, if◌then◌else◌, length, take, drop, replicate,
}
use iot_yk.Base.Bytes.{Run, done, fault, ◌>>=◌, u32}
use iot_yk.Report.{Memory}
use iot_yk.Io.{Effect}
use iot_yk.Relay.{Relay, handle, relay_service_get_state}

-- The static variables, and those of the task.
pub record Server : Type 0 where
  pub session_id : ℕ
  pub tx_counter : ℕ
  pub last_rx_counter : ℕ
  pub packet_count : ℕ
  pub last_rate_check_ms : ℕ
  pub last_activity_ms : ℕ

-- `memcpy` of a `uint32_t` on a little-endian machine.
unfoldable pub le4 : ℕ → List ℕ
le4 n = n % 256 ∷ n / 256 % 256 ∷ n / 65536 % 256 ∷ n / 16777216 % 256 ∷ []

unfoldable pub of_le4 : List ℕ → ℕ
of_le4 (a ∷ b ∷ c ∷ d ∷ bytes) = a + b * 256 + c * 65536 + d * 16777216
of_le4 _ = 0

-- The time between two readings, of 32 bits each.
abbrev pub elapsed : ℕ → ℕ → ℕ
elapsed now_ms before_ms = u32 (now_ms + 2 ^ 32 - before_ms)

-- The count starts anew after a second.
unfoldable pub rate_check : ℕ → Server → Server
rate_check now_ms s =
    if ltb 1000 (elapsed now_ms s.last_rate_check_ms)
    then record s { packet_count = 0; last_rate_check_ms = now_ms }
    else s

unfoldable pub expire : ℕ → ℕ → Server → Server
expire random now_ms s =
    if ltb 300000 (elapsed now_ms s.last_activity_ms)
    then record s { session_id = random; last_rx_counter = 0; last_activity_ms = now_ms }
    else s

-- The nonce: the first eight bytes of a datagram, and zeros.
abbrev pub nonce_of : List ℕ → List ℕ
nonce_of packet = take 8 packet ++ replicate 4 0

-- `len == 1 && rx_buffer[0] == CMD_PING`
unfoldable pub is_ping : List ℕ → Bool
is_ping (c ∷ []) = c == 0x03
is_ping _ = false

-- What a round does: the calls of the relay service, and the datagrams sent back.
abbrev pub Outcome : Type 0
Outcome = Server × Relay × List Effect × List (List ℕ)

-- "APP"
abbrev pub app_name : List ℕ
app_name = 65 ∷ 80 ∷ 80 ∷ []

module _ (mem : Memory) (ble : Bool) where
  -- The plaintext of the reply, none for an opcode that is unknown, and what the relay does.
  unfoldable pub execute : ℕ → Server → Relay → Run (Option ℕ × Relay × List Effect)
  execute opcode s r =
      let on = handle mem ble 0x01 s.tx_counter s.session_id app_name r >>= λ (r', made).
      done (some 0x04, r', made) in
      let off = handle mem ble 0x02 s.tx_counter s.session_id app_name r >>= λ (r', made).
      done (some 0x04, r', made) in
      if opcode == 0x01
      then on
      else if opcode == 0x02
      then off
      else if opcode == 0x05
      then done (some (if relay_service_get_state r then 0x01 else 0x02), r, [])
      else done (none, r, [])

  -- `encrypt` gives the 17 bytes of ciphertext and tag for a byte; `decrypt` takes them back.
  module _ (encrypt : List ℕ → ℕ → Option (List ℕ)) (decrypt : List ℕ → List ℕ → Option ℕ) where
    -- The counter goes on where the reply is encrypted.
    unfoldable pub send_sealed : List ℕ → Option (List ℕ) → Server → Server × List (List ℕ)
    send_sealed header none s = (s, [])
    send_sealed header (some sealed) s =
        (record s { tx_counter = u32 (s.tx_counter + 1) }, (header ++ sealed) ∷ [])

    unfoldable pub reply : Option ℕ → Server → Server × List (List ℕ)
    reply none s = (s, [])
    reply (some plain) s =
        let header = le4 s.session_id ++ le4 s.tx_counter in
        send_sealed header (encrypt (nonce_of header) plain) s

    -- A command, if it decrypts.
    unfoldable pub obey : ℕ → ℕ → Option ℕ → Server → Relay → Run Outcome
    unfolding execute reply
    obey now_ms counter none s r = done (s, r, [], [])
    obey now_ms counter (some opcode) s r =
        let s' = record s { last_rx_counter = counter; last_activity_ms = now_ms } in
        execute opcode s' r >>= λ (plain, r', made).
        let (s'', sent) = reply plain s' in done (s'', r', made, sent)

    -- A datagram of 25 bytes.
    unfoldable pub command : ℕ → List ℕ → Server → Relay → Run Outcome
    command now_ms packet s r =
        let counter = of_le4 (drop 4 packet) in
        let opened = obey now_ms counter (decrypt (nonce_of packet) (drop 8 packet)) s r in
        if not (of_le4 packet == s.session_id)
        then done (s, r, [], [])
        else if leb counter s.last_rx_counter && not (s.last_rx_counter == 0)
        then done (s, r, [], [])
        else opened

    -- A datagram within the rate.
    unfoldable pub datagram : ℕ → List ℕ → Server → Relay → Run Outcome
    unfolding command
    datagram now_ms packet s r =
        let pong = (0x04 ∷ le4 s.session_id) ∷ [] in
        if is_ping packet
        then done (record s { last_activity_ms = now_ms }, r, [], pong)
        else if not (length packet == 25)
        then done (s, r, [], [])
        else command now_ms packet s r

    -- A round of the loop, with what `recvfrom` has put into the buffer.
    unfoldable pub round : ℕ → ℕ → List ℕ → Server → Relay → Run Outcome
    unfolding rate_check expire datagram
    round random now_ms packet s r =
        let s1 = rate_check now_ms s in
        let counted = record s1 { packet_count = s1.packet_count + 1 } in
        if length packet == 0
        then done (s, r, [], [])
        else if ltb 20 s1.packet_count
        then done (s1, r, [], [])
        else datagram now_ms packet (expire random now_ms counted) r
