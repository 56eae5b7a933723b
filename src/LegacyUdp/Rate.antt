-- ===== src/LegacyUdp/Rate.antt =====
-- The rate and the counters of the UDP server stay in their bounds; legacy_udp.c.
use iot_yk.Base.Looking.{Ends, Ends-if}
use iot_yk.LegacyUdp.{send_sealed}
use iot_yk.Relay.{relay_service_get_state}
use iot_yk.Io.{Effect}
use iot_yk.Base.{
  ℕ, ◌+◌, ◌^◌, ◌≤◌, ◌<◌, ◌≡◌, inl, inr, refl, Bool, not, ◌&&◌, Option, none, some, List, [], ltb,
  leb, ◌==◌, if◌then◌else◌, Bool-cases, length, drop, arith,
}
use iot_yk.Base.Bytes.{Run, done}
use iot_yk.Report.{Memory}
use iot_yk.Report.Found.{IsMemory}
use iot_yk.Relay.{Relay, level_of}
use iot_yk.Relay.Pins.{handle-total}
use iot_yk.LegacyUdp.{
  Server, Outcome, app_name, rate_check, expire, execute, reply, obey, command, datagram, is_ping,
  round, elapsed, nonce_of, of_le4,
}

-- The counters fit 32 bits, and at most 21 datagrams are counted.
pub record IsServer (s : Server) : Type 0 where
  pub session_fits : s.session_id < 2 ^ 32
  pub tx_fits : s.tx_counter < 2 ^ 32
  pub few : s.packet_count ≤ 21

-- A run that ends in a proper state.
abbrev pub Bounded : Run Outcome → Type 0
Bounded m = Ends (λ o. IsServer o.0) m

module _ (mem : Memory) (w : IsMemory 64 256 mem) (ble : Bool)
    (encrypt : List ℕ → ℕ → Option (List ℕ)) (decrypt : List ℕ → List ℕ → Option ℕ) where
  pub execute-total :
      (opcode : ℕ) (s : Server) (r : Relay)
      → IsServer s
      → (plain : Option ℕ) × (r' : Relay) × (made : List Effect) × (execute mem ble opcode s r
          ≡ done (plain, r', made))
  unfolding execute
  execute-total opcode s r v =
      let (on, on_made, on_done, on_shown) =
        handle-total mem w ble 0x01 s.tx_counter s.session_id app_name r (λ pin. level_of r.state)
          v.tx_fits v.session_fits (refl, refl) in
      let (off, off_made, off_done, off_shown) =
        handle-total mem w ble 0x02 s.tx_counter s.session_id app_name r (λ pin. level_of r.state)
          v.tx_fits v.session_fits (refl, refl) in
      elim (Bool-cases (opcode == 0x01)) [
        | inl a ↦ (some 0x04, on, on_made, rw a (rw on_done))
        | inr a ↦ elim (Bool-cases (opcode == 0x02)) [
          | inl b ↦ (some 0x04, off, off_made, rw (a, b) (rw off_done))
          | inr b ↦ elim (Bool-cases (opcode == 0x05)) [
            | inl state ↦
                (some (if relay_service_get_state r then 0x01 else 0x02), r, [], rw (a, b, state))
            | inr other ↦ (none, r, [], rw (a, b, other))
          ]
        ]
      ]

  send_sealed-IsServer :
      (header : List ℕ) (sealed : Option (List ℕ)) (s : Server)
      → IsServer s
      → IsServer (send_sealed mem ble encrypt decrypt header sealed s).0
  unfolding send_sealed
  send_sealed-IsServer header none s v = v
  send_sealed-IsServer header (some sealed) s v = record {
    session_fits = v.session_fits;
    tx_fits = omega arith;
    few = v.few;
  }

  reply-IsServer :
      (plain : Option ℕ) (s : Server)
      → IsServer s
      → IsServer (reply mem ble encrypt decrypt plain s).0
  unfolding reply
  reply-IsServer none s v = v
  reply-IsServer (some plain) s v = send_sealed-IsServer _ _ s v

  obey-Bounded :
      (now_ms counter : ℕ) (opened : Option ℕ) (s : Server) (r : Relay)
      → IsServer s
      → Bounded (obey mem ble encrypt decrypt now_ms counter opened s r)
  unfolding obey
  obey-Bounded now_ms counter none s r v = v
  obey-Bounded now_ms counter (some opcode) s r v =
      let s' = record s { last_rx_counter = counter; last_activity_ms = now_ms } in
      let v' : IsServer s' = record {
        session_fits = v.session_fits;
        tx_fits = v.tx_fits;
        few = v.few;
      } in
      let (plain, r', made, e) = execute-total opcode s' r v' in rw e (reply-IsServer plain s' v')

  command-Bounded :
      (now_ms : ℕ) (packet : List ℕ) (s : Server) (r : Relay)
      → IsServer s
      → Bounded (command mem ble encrypt decrypt now_ms packet s r)
  unfolding command
  command-Bounded now_ms packet s r v =
      Ends-if _ (not (of_le4 packet == s.session_id)) _ _ (λ other. v)
        (λ same.
          Ends-if _ (leb (of_le4 (drop 4 packet)) s.last_rx_counter && not (s.last_rx_counter == 0))
            _ _ (λ old. v)
            (λ new.
              obey-Bounded now_ms (of_le4 (drop 4 packet))
                (decrypt (nonce_of packet) (drop 8 packet)) s r v))

  datagram-Bounded :
      (now_ms : ℕ) (packet : List ℕ) (s : Server) (r : Relay)
      → IsServer s
      → Bounded (datagram mem ble encrypt decrypt now_ms packet s r)
  unfolding datagram
  datagram-Bounded now_ms packet s r v =
      Ends-if _ (is_ping packet) _ _
        (λ ping. record { session_fits = v.session_fits; tx_fits = v.tx_fits; few = v.few })
        (λ no.
          Ends-if _ (not (length packet == 25)) _ _ (λ odd. v)
            (λ fits. command-Bounded now_ms packet s r v))

  expire-IsServer :
      (random now_ms : ℕ) (s : Server)
      → random < 2 ^ 32
      → IsServer s
      → IsServer (expire random now_ms s)
  unfolding expire
  expire-IsServer random now_ms s h v =
      elim (Bool-cases (ltb 300000 (elapsed now_ms s.last_activity_ms))) [
        | inl late ↦ rw late (record { session_fits = h; tx_fits = v.tx_fits; few = v.few })
        | inr early ↦ rw early v
      ]

  pub rate_check-IsServer : (now_ms : ℕ) (s : Server) → IsServer s → IsServer (rate_check now_ms s)
  unfolding rate_check
  rate_check-IsServer now_ms s v =
      elim (Bool-cases (ltb 1000 (elapsed now_ms s.last_rate_check_ms))) [
        | inl late ↦
            rw late
              (record { session_fits = v.session_fits; tx_fits = v.tx_fits; few = omega arith })
        | inr early ↦ rw early v
      ]

  -- Whatever datagram comes, a round ends without a fault, the session id and the counter of the
  -- replies stay numbers of 32 bits, and no more than 21 datagrams are counted.
  pub round-Bounded :
      (random now_ms : ℕ) (packet : List ℕ) (s : Server) (r : Relay)
      → random < 2 ^ 32
      → IsServer s
      → Bounded (round mem ble encrypt decrypt random now_ms packet s r)
  unfolding round
  round-Bounded random now_ms packet s r h v =
      let s1 = rate_check now_ms s in
      let v1 = rate_check-IsServer now_ms s v in
      Ends-if _ (length packet == 0) _ _ (λ empty. v)
        (λ full.
          Ends-if _ (ltb 20 s1.packet_count) _ _ (λ many. v1)
            (λ few.
              let counted = record s1 { packet_count = s1.packet_count + 1 } in
              let v2 : IsServer counted = record {
                session_fits = v1.session_fits;
                tx_fits = v1.tx_fits;
                few = ground arith;
              } in
              datagram-Bounded now_ms packet (expire random now_ms counted) r
                (expire-IsServer random now_ms counted h v2)))
