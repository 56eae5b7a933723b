-- ===== src/Qos/Ack.antt =====
-- Putting packets into the engine of ykp_qos.c and having them acknowledged.
use iot_yk.Base.{
  ℕ, suc, ◌/◌, ◌<◌, ◌≡◌, refl, Bool, true, false, inl, inr, some, List, [], ◌∷◌, length, arith,
  if◌then◌else◌, ◌==◌, Bool-cases,
}
use iot_yk.Qos.{Pending, Engine, qos1, keep, fill, fill_first, enqueue, is_acked, ack_first, ack}

-- The packets that wait, in the order of their slots.
unfoldable pub waiting : List Pending → List Pending
waiting [] = []
waiting (p ∷ ps) = let rest = waiting ps in if p.active then p ∷ rest else rest

-- No slot waits for an acknowledgement of this id.
unfoldable pub awaits : ℕ → List Pending → Bool
awaits packet_id [] = false
awaits packet_id (p ∷ ps) = if is_acked packet_id p then true else awaits packet_id ps

module _ (packet_id b : ℕ) (bs : List ℕ) (retry_us sent_us : ℕ) where
  abbrev filler : Pending → Pending
  filler = fill packet_id (b ∷ bs) qos1 retry_us sent_us

  -- One slot more waits, and an acknowledgement takes it back.
  record Fills (ps : List Pending) (ps' : List Pending) : Type 0 where
    filled : fill_first filler ps ≡ some ps'
    one_more : length (waiting ps') ≡ suc (length (waiting ps))
    acked :
        (end : List Pending) × ((ack_first packet_id ps' ≡ some (sent_us / 1000, end))
          × (waiting end ≡ waiting ps))

  fill_first-Fills :
      (ps : List Pending)
      → awaits packet_id ps ≡ false
      → length (waiting ps) < length ps
      → (ps' : List Pending) × Fills ps ps'
  unfolding fill_first waiting awaits ack_first fill
  fill_first-Fills [] a h = absurd (omega arith)
  fill_first-Fills (p ∷ ps) a h = elim (Bool-cases p.active) [
    | inl on ↦
        let not_this : is_acked packet_id p ≡ false = ground arith in
        let (ps', r) = fill_first-Fills ps (ground arith) (ground arith) in
        (
          p ∷ ps',
          record {
            filled = ground (arith, r.filled);
            one_more = ground (arith, r.one_more);
            acked = (p ∷ r.acked.0, (rw (not_this, r.acked.1.0) refl, ground (arith, r.acked.1.1)));
          },
        )
    | inr off ↦
        let same : (packet_id == packet_id) ≡ true = ground arith in
        (
          filler p ∷ ps,
          record {
            filled = ground arith;
            one_more = ground arith;
            acked = (record (filler p) { active = false } ∷ ps, (rw same refl, ground arith));
          },
        )
  ]

  -- A packet of QoS 1 that finds a free slot, under an id for which no slot awaits an
  -- acknowledgement, is taken, and one packet more is waiting; when its acknowledgement comes, the
  -- packets waiting are those from before, in their slots' order, whatever the other slots hold.
  pub enqueue-ack :
      (engine : Engine) (now_us : ℕ)
      → awaits packet_id engine.slots ≡ false
      → length (waiting engine.slots) < length engine.slots
      → let r = enqueue engine packet_id (some (b ∷ bs)) qos1 retry_us sent_us in
        (r.0 ≡ true)
        × (length (waiting r.2.slots) ≡ suc (length (waiting engine.slots)))
        × (waiting (ack r.2 packet_id now_us).1.slots ≡ waiting engine.slots)
  unfolding enqueue keep waiting ack
  enqueue-ack engine now_us a h =
      let (slots, r) = fill_first-Fills engine.slots a h in
      rw (r.filled, keep) (refl, r.one_more, rw (r.acked.1.0, ack) r.acked.1.1)
