-- ===== src/Qos/Examples.antt =====
-- The theorems of the QoS engine at concrete packets and clock readings.
use iot_yk.Base.{ℕ, suc, ◌≡◌, refl, true, false, some, List, [], ◌∷◌, length, arith}
use iot_yk.Qos.{
  Pending, Engine, qos1, qos2, send, timer_start, timer_stop, blank, any_active, fill, fill_first,
  keep, enqueue, ack, tick, tick_loop, turn_of, turn_calls, after_turn, check_and_stop_timer,
}
use iot_yk.Qos.Timer.{
  Op, put, got_ack, got_pubcomp, timer_fires, runs, use_engine, use_engine-InStep,
}
use iot_yk.Qos.Ack.{waiting, awaits, enqueue-ack}
use iot_yk.Qos.Retry.{ticks, enqueue-give_up}

-- A packet of QoS 2 is waiting in the second of three slots.
abbrev other : Pending
other = record blank {
  packet_id = 7;
  bytes = 5 ∷ 6 ∷ [];
  data_len = 2;
  qos = qos2;
  waiting_pubrec = true;
  active = true;
}

abbrev busy : Engine
busy = record { slots = blank ∷ other ∷ blank ∷ []; send_fn = true; timer = true; last_rtt_ms = 45 }

abbrev traffic : List Op
traffic =
    put 8 (some (1 ∷ 2 ∷ [])) qos1 1000000 1000000
    ∷ timer_fires 1500000
    ∷ got_ack 8 1600000
    ∷ got_pubcomp 7
    ∷ []

use_engine-InStep_example :
    runs (any_active busy.slots) (use_engine traffic busy).0
    ≡ any_active (use_engine traffic busy).1.slots
use_engine-InStep_example = use_engine-InStep traffic busy refl

enqueue-ack_example :
    let r = enqueue busy 8 (some (1 ∷ 2 ∷ [])) qos1 1000000 1000000 in
    (r.0 ≡ true)
    × (length (waiting r.2.slots) ≡ suc (length (waiting busy.slots)))
    × (waiting (ack r.2 8 1600000).1.slots ≡ waiting busy.slots)
unfolding waiting awaits
enqueue-ack_example = enqueue-ack 8 1 (2 ∷ []) 1000000 1000000 busy 1600000 refl (omega arith)

abbrev quiet_engine : Engine
quiet_engine = record { slots = blank ∷ blank ∷ []; send_fn = true; timer = true; last_rtt_ms = 45 }

enqueue-give_up_example :
    let enqueued = enqueue quiet_engine 8 (some (1 ∷ 2 ∷ [])) qos1 1000000 1000000 in
    let r = ticks enqueued.2 (1500000 ∷ 2500000 ∷ 4500000 ∷ 8500000 ∷ []) in
    let packet : List ℕ = 1 ∷ 2 ∷ [] in
    (enqueued.1 ≡ send packet ∷ timer_start ∷ [])
    × (r.0 ≡ send packet ∷ send packet ∷ send packet ∷ timer_stop ∷ [])
    × (any_active r.1.slots ≡ false)
unfolding any_active
enqueue-give_up_example =
    enqueue-give_up quiet_engine blank (blank ∷ []) 8 1 (2 ∷ []) 1000000 1000000 1500000 2500000
      4500000 8500000 refl (omega arith) (omega arith) (omega arith) (omega arith) (omega arith)

-- A tick half a second after a packet was sent sends it again: the first retry is due at once.
early_retry :
    (tick (enqueue quiet_engine 8 (some (1 ∷ 2 ∷ [])) qos1 1000000 1000000).2 1000000).0
    ≡ send (1 ∷ 2 ∷ []) ∷ []
unfolding tick tick_loop turn_of turn_calls after_turn enqueue keep fill_first fill
    check_and_stop_timer any_active
early_retry = refl
