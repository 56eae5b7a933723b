-- ===== src/LegacyUdp/Replays.antt =====
-- Commands that come again to the UDP server; legacy_udp.c.
use iot_yk.LegacyUdp.{send_sealed}
use iot_yk.Base.Looking.{Ends-weaken}
use iot_yk.Base.{ltb-false}
use iot_yk.Base.{if_false}
use iot_yk.Base.{
  ℕ, ◌+◌, ◌≤◌, ◌≡◌, ◌≢◌, inl, inr, refl, ◌∙◌, Bool, true, false, not, ◌&&◌, Option, none, some,
  List, [], ◌∷◌, ltb, leb, ◌==◌, Bool-cases, length, drop, arith,
}
use iot_yk.Base.Looking.{Ends, Ends-if}
use iot_yk.Report.{Memory}
use iot_yk.Relay.{Relay}
use iot_yk.LegacyUdp.{
  Server, Outcome, rate_check, expire, reply, command, datagram, is_ping, round, elapsed, of_le4,
}

-- A round that drops a datagram: nothing is sent, the relay is left alone, and of the server's
-- state nothing but the rate changes.
abbrev pub Dropped : Server → Relay → Outcome → Type 0
Dropped s r o =
    (o.1 ≡ r)
    × (o.2 ≡ [])
    × (o.3 ≡ [])
    × (o.0.last_rx_counter ≡ s.last_rx_counter)
    × (o.0.session_id ≡ s.session_id)
    × (o.0.tx_counter ≡ s.tx_counter)

pub rate_check-keeps :
    (now_ms : ℕ) (s : Server)
    → ((rate_check now_ms s).last_rx_counter ≡ s.last_rx_counter)
      × ((rate_check now_ms s).session_id ≡ s.session_id)
      × ((rate_check now_ms s).tx_counter ≡ s.tx_counter)
      × ((rate_check now_ms s).last_activity_ms ≡ s.last_activity_ms)
unfolding rate_check
rate_check-keeps now_ms s = elim (Bool-cases (ltb 1000 (elapsed now_ms s.last_rate_check_ms))) [
  | inl late ↦ rw late (refl, refl, refl, refl)
  | inr early ↦ rw early (refl, refl, refl, refl)
]

pub expire_early :
    (random now_ms : ℕ) (s : Server)
    → elapsed now_ms s.last_activity_ms ≤ 300000
    → expire random now_ms s ≡ s
unfolding expire
expire_early random now_ms s h = if_false _ _ _ (ltb-false 300000 _ h)

pub is_ping_long : (packet : List ℕ) → length packet ≡ 25 → is_ping packet ≡ false
unfolding is_ping
is_ping_long [] e = refl
is_ping_long (x ∷ []) e = absurd (omega arith)
is_ping_long (x ∷ y ∷ packet) e = refl

module _ (mem : Memory) (ble : Bool) (encrypt : List ℕ → ℕ → Option (List ℕ))
    (decrypt : List ℕ → List ℕ → Option ℕ) where
  command-Dropped :
      (now_ms : ℕ) (packet : List ℕ) (s : Server) (r : Relay)
      → of_le4 (drop 4 packet) ≤ s.last_rx_counter
      → s.last_rx_counter ≢ 0
      → Ends (Dropped s r) (command mem ble encrypt decrypt now_ms packet s r)
  unfolding command
  command-Dropped now_ms packet s r h n =
      let old : (leb (of_le4 (drop 4 packet)) s.last_rx_counter && not (s.last_rx_counter == 0))
          ≡ true =
        ground (arith, h, n) in
      Ends-if _ (not (of_le4 packet == s.session_id)) _ _
        (λ other. (refl, refl, refl, refl, refl, refl))
        (λ same. rw old (refl, refl, refl, refl, refl, refl))

  -- A command whose counter is not above that of the last command accepted, which is not 0, within
  -- five minutes of the last activity: it is dropped, whether it decrypts or not.
  pub round-Dropped :
      (random now_ms : ℕ) (packet : List ℕ) (s : Server) (r : Relay)
      → length packet ≡ 25
      → of_le4 (drop 4 packet) ≤ s.last_rx_counter
      → s.last_rx_counter ≢ 0
      → elapsed now_ms s.last_activity_ms ≤ 300000
      → Ends (Dropped s r) (round mem ble encrypt decrypt random now_ms packet s r)
  unfolding round datagram
  round-Dropped random now_ms packet s r len h n soon =
      let s1 = rate_check now_ms s in
      let counted = record s1 { packet_count = s1.packet_count + 1 } in
      let kept = rate_check-keeps now_ms s in
      let early = expire_early random now_ms counted (rw (← kept.3) at soon) in
      let dropped = command-Dropped now_ms packet counted r (rw kept.0 h) (rw kept.0 n) in
      let full : (length packet == 0) ≡ false = ground arith in
      let right : not (length packet == 25) ≡ false = ground arith in
      rw full (
        Ends-if _ (ltb 20 s1.packet_count) _ _ (λ many. (refl, refl, refl, kept.0, kept.1, kept.2))
          (λ few. rw early (
            rw (is_ping_long packet len, right)
              (Ends-weaken (Dropped counted r) (Dropped s r)
                (command mem ble encrypt decrypt now_ms packet counted r)
                (λ o q. (q.0, q.1, q.2, q.3 ∙ kept.0, q.4 ∙ kept.1, q.5 ∙ kept.2)) dropped))))

  send_sealed-keeps :
      (header : List ℕ) (out : Option (List ℕ)) (s : Server)
      → (send_sealed mem ble encrypt decrypt header out s).0.last_rx_counter ≡ s.last_rx_counter
  unfolding send_sealed
  send_sealed-keeps header none s = refl
  send_sealed-keeps header (some out) s = refl

  pub reply-keeps :
      (plain : Option ℕ) (s : Server)
      → (reply mem ble encrypt decrypt plain s).0.last_rx_counter ≡ s.last_rx_counter
  unfolding reply
  reply-keeps none s = refl
  reply-keeps (some plain) s = send_sealed-keeps _ _ s
