-- ===== src/LegacyUdp/Once.antt =====
-- Commands that come a second time within a session; legacy_udp.c.
use iot_yk.Base.{
  ℕ, ◌+◌, ◌^◌, ◌≤◌, ◌<◌, ◌≡◌, ◌⊎◌, inl, inr, refl, Bool, true, false, not, ◌&&◌, Option, none, some,
  List, [], ◌∷◌, ltb, leb, ◌==◌, Bool-cases, ltb-false, ltb→lt, length, drop, arith,
}
use iot_yk.Base.Looking.{Ends, Ends-if, Ends-weaken, Ends-both}
use iot_yk.Report.{Memory}
use iot_yk.Report.Found.{IsMemory}
use iot_yk.Relay.{Relay}
use iot_yk.LegacyUdp.{
  Server, Outcome, rate_check, obey, command, datagram, is_ping, round, elapsed, nonce_of, of_le4,
}
use iot_yk.LegacyUdp.Rate.{IsServer, execute-total, rate_check-IsServer, round-Bounded}
use iot_yk.LegacyUdp.Replays.{
  Dropped, rate_check-keeps, expire_early, is_ping_long, reply-keeps, round-Dropped,
}

-- A datagram, the reading of the clock when it comes, and what `esp_random` would give then.
pub record Incoming : Type 0 where
  pub random : ℕ
  pub now_ms : ℕ
  pub packet : List ℕ

-- `esp_random` gives 32 bits.
abbrev pub AllFit : List Incoming → Type 0
AllFit [] = Unit
AllFit (a ∷ later) = (a.random < 2 ^ 32) × AllFit later

-- A command of 25 bytes whose counter is at most this.
abbrev pub is_old : ℕ → List ℕ → Bool
is_old counter packet = length packet == 25 && leb (of_le4 (drop 4 packet)) counter

abbrev pub DroppedIf : Bool → Server → Relay → Outcome → Type 0
DroppedIf true s r o = Dropped s r o
DroppedIf false s r o = Unit

module _ (mem : Memory) (ble : Bool) (encrypt : List ℕ → ℕ → Option (List ℕ))
    (decrypt : List ℕ → List ℕ → Option ℕ) where
  -- The datagrams that come while the session lives. Once five minutes have passed since the last
  -- activity, nothing is said; before that, a command whose counter is at most `c` is dropped.
  abbrev pub Refuses : ℕ → List Incoming → Server → Relay → Type 0
  Refuses c [] s r = Unit
  Refuses c (a ∷ later) s r =
      (300000 < elapsed a.now_ms s.last_activity_ms)
      ⊎ Ends (λ o. DroppedIf (is_old c a.packet) s r o × Refuses c later o.0 o.1)
          (round mem ble encrypt decrypt a.random a.now_ms a.packet s r)

module _ (mem : Memory) (w : IsMemory 64 256 mem) (ble : Bool)
    (encrypt : List ℕ → ℕ → Option (List ℕ)) (decrypt : List ℕ → List ℕ → Option ℕ) where
  obey-counts :
      (now_ms counter opcode : ℕ) (s : Server) (r : Relay)
      → IsServer s
      → Ends
          (λ o. o.0.last_rx_counter ≡ counter)
          (obey mem ble encrypt decrypt now_ms counter (some opcode) s r)
  unfolding obey
  obey-counts now_ms counter opcode s r v =
      let s' = record s { last_rx_counter = counter; last_activity_ms = now_ms } in
      let v' : IsServer s' = record {
        session_fits = v.session_fits;
        tx_fits = v.tx_fits;
        few = v.few;
      } in
      let (plain, r', made, e) = execute-total mem w ble encrypt decrypt opcode s' r v' in
      rw e (reply-keeps mem ble encrypt decrypt plain s')

  -- The counter of the last command is at least `c`.
  abbrev Passed : ℕ → Outcome → Type 0
  Passed c o = c ≤ o.0.last_rx_counter

  obey-Passed :
      (c now_ms counter : ℕ) (opened : Option ℕ) (s : Server) (r : Relay)
      → c ≤ s.last_rx_counter
      → c ≤ counter
      → IsServer s
      → Ends (Passed c) (obey mem ble encrypt decrypt now_ms counter opened s r)
  unfolding obey
  obey-Passed c now_ms counter none s r h k v = h
  obey-Passed c now_ms counter (some opcode) s r h k v =
      Ends-weaken (λ o. o.0.last_rx_counter ≡ counter) (Passed c)
        (obey mem ble encrypt decrypt now_ms counter (some opcode) s r) (λ o e. rw e k)
        (obey-counts now_ms counter opcode s r v)

  command-Passed :
      (c now_ms : ℕ) (packet : List ℕ) (s : Server) (r : Relay)
      → c ≤ s.last_rx_counter
      → 0 < c
      → IsServer s
      → Ends (Passed c) (command mem ble encrypt decrypt now_ms packet s r)
  unfolding command
  command-Passed c now_ms packet s r h pos v =
      let counter = of_le4 (drop 4 packet) in
      Ends-if (Passed c) (not (of_le4 packet == s.session_id)) _ _ (λ other. h)
        (λ same.
          Ends-if (Passed c) (leb counter s.last_rx_counter && not (s.last_rx_counter == 0)) _ _
            (λ old. h)
            (λ new.
              obey-Passed c now_ms counter (decrypt (nonce_of packet) (drop 8 packet)) s r h
                (ground (arith, new, h, pos)) v))

  round-Passed :
      (c random now_ms : ℕ) (packet : List ℕ) (s : Server) (r : Relay)
      → c ≤ s.last_rx_counter
      → 0 < c
      → elapsed now_ms s.last_activity_ms ≤ 300000
      → IsServer s
      → Ends (Passed c) (round mem ble encrypt decrypt random now_ms packet s r)
  unfolding round datagram
  round-Passed c random now_ms packet s r h pos soon v =
      let s1 = rate_check now_ms s in
      let v1 = rate_check-IsServer mem w ble encrypt decrypt now_ms s v in
      let counted = record s1 { packet_count = s1.packet_count + 1 } in
      let kept = rate_check-keeps now_ms s in
      let early = expire_early random now_ms counted (rw (← kept.3) at soon) in
      let h1 : c ≤ counted.last_rx_counter = rw kept.0 h in
      Ends-if (Passed c) (length packet == 0) _ _ (λ empty. h)
        (λ full.
          Ends-if (Passed c) (ltb 20 s1.packet_count) _ _ (λ many. h1)
            (λ few.
              let v2 : IsServer counted = record {
                session_fits = v1.session_fits;
                tx_fits = v1.tx_fits;
                few = ground arith;
              } in
              rw early (
                Ends-if (Passed c) (is_ping packet) _ _ (λ ping. h1)
                  (λ no.
                    Ends-if (Passed c) (not (length packet == 25)) _ _ (λ odd. h1)
                      (λ fits. command-Passed c now_ms packet counted r h1 pos v2)))))

  dropped_if :
      (c : ℕ) (old : Bool) (random now_ms : ℕ) (packet : List ℕ) (s : Server) (r : Relay)
      → is_old c packet ≡ old
      → c ≤ s.last_rx_counter
      → 0 < c
      → elapsed now_ms s.last_activity_ms ≤ 300000
      → IsServer s
      → random < 2 ^ 32
      → Ends (DroppedIf old s r) (round mem ble encrypt decrypt random now_ms packet s r)
  dropped_if c true random now_ms packet s r e h pos soon v fits =
      let len : length packet ≡ 25 = ground (arith, e) in
      let old : of_le4 (drop 4 packet) ≤ c = ground (arith, e) in
      round-Dropped mem ble encrypt decrypt random now_ms packet s r len (omega (arith, old, h))
        (omega (arith, h, pos)) soon
  dropped_if c false random now_ms packet s r e h pos soon v fits =
      Ends-weaken (λ o. IsServer o.0) (DroppedIf false s r)
        (round mem ble encrypt decrypt random now_ms packet s r) (λ o q. tt)
        (round-Bounded mem w ble encrypt decrypt random now_ms packet s r fits v)

  Refuses-from :
      (c : ℕ) (later : List Incoming) (s : Server) (r : Relay)
      → c ≤ s.last_rx_counter
      → 0 < c
      → IsServer s
      → AllFit later
      → Refuses mem ble encrypt decrypt c later s r
  Refuses-from c [] s r h pos v fits = tt
  Refuses-from c (a ∷ later) s r h pos v fits =
      let code = round mem ble encrypt decrypt a.random a.now_ms a.packet s r in
      elim (Bool-cases (ltb 300000 (elapsed a.now_ms s.last_activity_ms))) [
        | inl late ↦ inl (ltb→lt 300000 (elapsed a.now_ms s.last_activity_ms) late)
        | inr early ↦
            let soon : elapsed a.now_ms s.last_activity_ms ≤ 300000 = ground (arith, early) in
            let old = is_old c a.packet in
            let proper =
              round-Bounded mem w ble encrypt decrypt a.random a.now_ms a.packet s r fits.0 v in
            let passed = round-Passed c a.random a.now_ms a.packet s r h pos soon v in
            let dropped =
              dropped_if c old a.random a.now_ms a.packet s r refl h pos soon v fits.0 in
            inr (
              Ends-weaken (λ o. DroppedIf old s r o × (Passed c o × IsServer o.0))
                (λ o. DroppedIf old s r o × Refuses mem ble encrypt decrypt c later o.0 o.1) code
                (λ o q. (q.0, Refuses-from c later o.0 o.1 q.1.0 pos q.1.1 fits.1))
                (Ends-both (DroppedIf old s r) (λ o. Passed c o × IsServer o.0) code dropped
                  (Ends-both (Passed c) (λ o. IsServer o.0) code passed proper)))
      ]

  accepted :
      (random now_ms opcode : ℕ) (packet : List ℕ) (s : Server) (r : Relay)
      → IsServer s
      → length packet ≡ 25
      → of_le4 packet ≡ s.session_id
      → s.last_rx_counter < of_le4 (drop 4 packet)
      → decrypt (nonce_of packet) (drop 8 packet) ≡ some opcode
      → (rate_check now_ms s).packet_count ≤ 20
      → elapsed now_ms s.last_activity_ms ≤ 300000
      → Ends
          (λ o. o.0.last_rx_counter ≡ of_le4 (drop 4 packet))
          (round mem ble encrypt decrypt random now_ms packet s r)
  unfolding round datagram command
  accepted random now_ms opcode packet s r v len session above opens few soon =
      let s1 = rate_check now_ms s in
      let v1 = rate_check-IsServer mem w ble encrypt decrypt now_ms s v in
      let counted = record s1 { packet_count = s1.packet_count + 1 } in
      let v2 : IsServer counted = record {
        session_fits = v1.session_fits;
        tx_fits = v1.tx_fits;
        few = omega (arith, few);
      } in
      let kept = rate_check-keeps now_ms s in
      let early = expire_early random now_ms counted (rw (← kept.3) at soon) in
      let full : (length packet == 0) ≡ false = ground arith in
      let right : not (length packet == 25) ≡ false = ground arith in
      let same : not (of_le4 packet == counted.session_id) ≡ false =
        ground (arith, session, kept.1) in
      let fresh : (leb (of_le4 (drop 4 packet)) counted.last_rx_counter
            && not (counted.last_rx_counter == 0))
          ≡ false =
        ground (arith, above, kept.0) in
      rw (full, ltb-false 20 s1.packet_count few)
        (rw early (
          rw (is_ping_long packet len, right)
            (rw (same, fresh)
              (rw opens (obey-counts now_ms (of_le4 (drop 4 packet)) opcode counted r v2)))))

  -- Where the buffers are as the declarations size them, the server's numbers and those of
  -- `esp_random` fit 32 bits and at most 21 datagrams are counted: a command for this session that
  -- decrypts, with a counter above that of the last command, within the rate and at most five
  -- minutes after the last activity, has its counter recorded. Whatever datagrams come after it,
  -- up to the first that comes more than five minutes after the last activity, each command of 25
  -- bytes with this counter or a lower one is dropped: nothing is sent, the relay is not called,
  -- and the counters of the commands and of the replies and the session's id stay as they were.
  pub round-Once :
      (random now_ms opcode : ℕ) (packet : List ℕ) (later : List Incoming) (s : Server) (r : Relay)
      → IsServer s
      → random < 2 ^ 32
      → AllFit later
      → length packet ≡ 25
      → of_le4 packet ≡ s.session_id
      → s.last_rx_counter < of_le4 (drop 4 packet)
      → decrypt (nonce_of packet) (drop 8 packet) ≡ some opcode
      → (rate_check now_ms s).packet_count ≤ 20
      → elapsed now_ms s.last_activity_ms ≤ 300000
      → Ends
          (λ o.
            (o.0.last_rx_counter ≡ of_le4 (drop 4 packet))
            × Refuses mem ble encrypt decrypt (of_le4 (drop 4 packet)) later o.0 o.1)
          (round mem ble encrypt decrypt random now_ms packet s r)
  round-Once random now_ms opcode packet later s r v fits all len session above opens few soon =
      let c = of_le4 (drop 4 packet) in
      let code = round mem ble encrypt decrypt random now_ms packet s r in
      Ends-weaken (λ o. (o.0.last_rx_counter ≡ c) × IsServer o.0) _ code
        (λ o q.
          (q.0, Refuses-from c later o.0 o.1 (omega (arith, q.0)) (omega (arith, above)) q.1 all))
        (Ends-both (λ o. o.0.last_rx_counter ≡ c) (λ o. IsServer o.0) code
          (accepted random now_ms opcode packet s r v len session above opens few soon)
          (round-Bounded mem w ble encrypt decrypt random now_ms packet s r fits v))
