-- ===== src/LegacyUdp/Again.antt =====
-- A command that comes again and again before another has been accepted; legacy_udp.c.
use iot_yk.Base.{
  ℕ, ◌+◌, ◌^◌, ◌≤◌, ◌<◌, ◌≡◌, inl, inr, refl, ◌∙◌, sym, Bool, true, false, not, ◌&&◌, Option, none,
  some, List, [], ◌∷◌, ltb, leb, ◌==◌, if◌then◌else◌, Bool-cases, ltb-false, length, drop, arith,
}
use iot_yk.Base.Looking.{Ends, Ends-weaken}
use iot_yk.Report.{Memory}
use iot_yk.Report.Found.{IsMemory}
use iot_yk.Relay.{Relay, set_levels}
use iot_yk.Relay.Acks.{handle_lem}
use iot_yk.Relay.Levels.{pin_level}
use iot_yk.Relay.Pins.{report_state-total}
use iot_yk.LegacyUdp.{
  Server, Outcome, app_name, rate_check, execute, reply, send_sealed, obey, command, datagram,
  round, elapsed, nonce_of, of_le4,
}
use iot_yk.LegacyUdp.Replays.{rate_check-keeps, expire_early, is_ping_long}

-- A clock reading, and what `esp_random` would give then.
pub record Arrival : Type 0 where
  pub random : ℕ
  pub now_ms : ℕ

-- The datagrams counted since `checked_ms`, or 0 where a second is over.
abbrev pub count_at : ℕ → ℕ → ℕ → ℕ
count_at now_ms count checked_ms = if ltb 1000 (elapsed now_ms checked_ms) then 0 else count

abbrev pub checked_at : ℕ → ℕ → ℕ
checked_at now_ms checked_ms = if ltb 1000 (elapsed now_ms checked_ms) then now_ms else checked_ms

-- Every arrival is within the rate, and at most five minutes after the one before. The numbers are
-- the datagrams counted, since when, and when the last command was accepted.
abbrev pub Timely : ℕ → ℕ → ℕ → List Arrival → Type 0
Timely count checked_ms active_ms [] = Unit
Timely count checked_ms active_ms (a ∷ arrivals) =
    (count_at a.now_ms count checked_ms ≤ 20)
    × (elapsed a.now_ms active_ms ≤ 300000)
    × Timely (count_at a.now_ms count checked_ms + 1) (checked_at a.now_ms checked_ms) a.now_ms
        arrivals

-- What a reply keeps.
abbrev Sealed : Server → Server → Type 0
Sealed s s' =
    (s'.last_rx_counter ≡ s.last_rx_counter)
    × (s'.session_id ≡ s.session_id)
    × (s'.last_activity_ms ≡ s.last_activity_ms)
    × (s'.packet_count ≡ s.packet_count)
    × (s'.last_rate_check_ms ≡ s.last_rate_check_ms)
    × (s'.tx_counter < 2 ^ 32)

rate_check-counts :
    (now_ms : ℕ) (s : Server)
    → ((rate_check now_ms s).packet_count ≡ count_at now_ms s.packet_count s.last_rate_check_ms)
      × ((rate_check now_ms s).last_rate_check_ms ≡ checked_at now_ms s.last_rate_check_ms)
unfolding rate_check
rate_check-counts now_ms s = elim (Bool-cases (ltb 1000 (elapsed now_ms s.last_rate_check_ms))) [
  | inl late ↦ rw late (refl, refl)
  | inr early ↦ rw early (refl, refl)
]

-- The server after a command with the counter 0.
abbrev next : ℕ → Server → Server
next now_ms s = record s {
  packet_count = count_at now_ms s.packet_count s.last_rate_check_ms + 1;
  last_rate_check_ms = checked_at now_ms s.last_rate_check_ms;
  last_rx_counter = 0;
  last_activity_ms = now_ms;
}

module _ (mem : Memory) (ble : Bool) (encrypt : List ℕ → ℕ → Option (List ℕ))
    (decrypt : List ℕ → List ℕ → Option ℕ) where
  -- The datagram comes at every arrival: each time it turns the relay on, through the pin, and
  -- the session and the counter of the last command stay as they were.
  abbrev pub AllObeyed : List ℕ → List Arrival → Server → Relay → Type 0
  AllObeyed packet [] s r = Unit
  AllObeyed packet (a ∷ arrivals) s r =
      Ends
        (λ o.
          (o.1.state ≡ true)
          × (pin_level 4 0 o.2 ≡ 1)
          × (o.0.last_rx_counter ≡ 0)
          × (o.0.session_id ≡ s.session_id)
          × AllObeyed packet arrivals o.0 o.1)
        (round mem ble encrypt decrypt a.random a.now_ms packet s r)

module _ (mem : Memory) (w : IsMemory 64 256 mem) (ble : Bool)
    (encrypt : List ℕ → ℕ → Option (List ℕ)) (decrypt : List ℕ → List ℕ → Option ℕ) where
  send_sealed-Sealed :
      (header : List ℕ) (out : Option (List ℕ)) (s : Server)
      → s.tx_counter < 2 ^ 32
      → Sealed s (send_sealed mem ble encrypt decrypt header out s).0
  unfolding send_sealed
  send_sealed-Sealed header none s h = (refl, refl, refl, refl, refl, h)
  send_sealed-Sealed header (some out) s h = (refl, refl, refl, refl, refl, omega arith)

  reply-Sealed :
      (plain : Option ℕ) (s : Server)
      → s.tx_counter < 2 ^ 32
      → Sealed s (reply mem ble encrypt decrypt plain s).0
  unfolding reply
  reply-Sealed none s h = (refl, refl, refl, refl, refl, h)
  reply-Sealed (some plain) s h = send_sealed-Sealed _ _ s h

  -- The relay is on, and the calls take its pin from 0 to 1.
  abbrev TurnedOn : Outcome → Type 0
  TurnedOn o = (o.1.state ≡ true) × (pin_level 4 0 o.2 ≡ 1)

  obey-on :
      (now_ms : ℕ) (s : Server) (r : Relay)
      → s.tx_counter < 2 ^ 32
      → s.session_id < 2 ^ 32
      → Ends
          (λ o.
            TurnedOn o × Sealed (record s { last_rx_counter = 0; last_activity_ms = now_ms }) o.0)
          (obey mem ble encrypt decrypt now_ms 0 (some 0x01) s r)
  unfolding obey execute pin_level
  obey-on now_ms s r h k =
      let s' = record s { last_rx_counter = 0; last_activity_ms = now_ms } in
      let on = record r { state = true } in
      let (made, e, same) =
        report_state-total mem w ble s.tx_counter s.session_id app_name on (set_levels true) h k in
      rw (handle_lem mem ble 0x01 s.tx_counter s.session_id app_name r)
        (rw e ((refl, same 4 0), reply-Sealed (some 0x04) s' h))

  module _ (packet : List ℕ) (len : length packet ≡ 25) (zero_counter : of_le4 (drop 4 packet) ≡ 0)
      (opens : decrypt (nonce_of packet) (drop 8 packet) ≡ some 0x01) where
    once_more :
        (random now_ms : ℕ) (s : Server) (r : Relay)
        → s.tx_counter < 2 ^ 32
        → s.session_id < 2 ^ 32
        → s.last_rx_counter ≡ 0
        → of_le4 packet ≡ s.session_id
        → count_at now_ms s.packet_count s.last_rate_check_ms ≤ 20
        → elapsed now_ms s.last_activity_ms ≤ 300000
        → Ends
            (λ o. TurnedOn o × Sealed (next now_ms s) o.0)
            (round mem ble encrypt decrypt random now_ms packet s r)
    unfolding round datagram command
    once_more random now_ms s r h k zero_rx session few soon =
        let s1 = rate_check now_ms s in
        let counted = record s1 { packet_count = s1.packet_count + 1 } in
        let kept = rate_check-keeps now_ms s in
        let counts = rate_check-counts now_ms s in
        let early = expire_early random now_ms counted (rw (← kept.3) at soon) in
        let full : (length packet == 0) ≡ false = ground arith in
        let right : not (length packet == 25) ≡ false = ground arith in
        let same : not (of_le4 packet == counted.session_id) ≡ false =
          ground (arith, session, kept.1) in
        let fresh : (leb (of_le4 (drop 4 packet)) counted.last_rx_counter
              && not (counted.last_rx_counter == 0))
            ≡ false =
          ground (arith, zero_rx, kept.0) in
        rw (full, ltb-false 20 s1.packet_count (rw (← counts.0) at few))
          (rw early (
            rw (is_ping_long packet len, right)
              (rw (same, fresh)
                (rw (zero_counter, opens)
                  (Ends-weaken _ _ (obey mem ble encrypt decrypt now_ms 0 (some 0x01) counted r)
                    (λ o q. (
                      q.0,
                      (
                        q.1.0,
                        q.1.1 ∙ kept.1,
                        q.1.2,
                        q.1.3 ∙ omega (arith, counts.0),
                        q.1.4 ∙ counts.1,
                        q.1.5,
                      ),
                    ))
                    (obey-on now_ms counted r (rw kept.2 h) (rw kept.1 k)))))))

    -- Where the buffers are as the declarations size them and the session's id and the counter of
    -- the replies fit 32 bits, before a command with another counter has been accepted: one
    -- datagram with a command that turns the relay on with the counter 0, for this session, that
    -- decrypts, comes any number of times, each time within the rate and at most five minutes
    -- after the time before. It is obeyed every time: the relay is on and the calls raise its pin,
    -- and the session's id and the counter of the last command, 0, stay as they were.
    pub round-Again :
        (arrivals : List Arrival) (s : Server) (r : Relay)
        → s.tx_counter < 2 ^ 32
        → s.session_id < 2 ^ 32
        → s.last_rx_counter ≡ 0
        → of_le4 packet ≡ s.session_id
        → Timely s.packet_count s.last_rate_check_ms s.last_activity_ms arrivals
        → AllObeyed mem ble encrypt decrypt packet arrivals s r
    round-Again [] s r h k zero_rx session timely = tt
    round-Again (a ∷ arrivals) s r h k zero_rx session timely =
        Ends-weaken (λ o. TurnedOn o × Sealed (next a.now_ms s) o.0) _
          (round mem ble encrypt decrypt a.random a.now_ms packet s r)
          (λ o q.
            let later : Timely o.0.packet_count o.0.last_rate_check_ms o.0.last_activity_ms
                arrivals =
              rw (q.1.2, q.1.3, q.1.4) timely.2 in
            (
              q.0.0,
              q.0.1,
              q.1.0,
              q.1.1,
              round-Again arrivals o.0 o.1 q.1.5 (rw q.1.1 k) q.1.0 (session ∙ sym q.1.1) later,
            ))
          (once_more a.random a.now_ms s r h k zero_rx session timely.0 timely.1)
