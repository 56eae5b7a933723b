-- ===== src/Ota/Image.antt =====
-- The image in the flash and the hash over it; ota_service.c.
use iot_yk.Ota.{announced}
use iot_yk.Ota.Announced.{HoldsHash, handle-HoldsHash}
use iot_yk.Base.Looking.{Ensures-both}
use iot_yk.Base.Bytes.{split_at}
use iot_yk.Tlv.Find.{Tlv}
use iot_yk.Ota.{finish, write_found}
use iot_yk.Ota.{ctx_with}
use iot_yk.Tlv.Find.{find}
use iot_yk.Ota.{ota_packet}
use iot_yk.Report.{transmit}
use iot_yk.Report.{Memory}
use iot_yk.Base.{
  ℕ, ◌≡◌, inl, inr, refl, ap, Bool, true, false, not, ◌&&◌, ◌||◌, Option, none, some, List, [], ◌∷◌,
  ◌++◌, ◌==◌, Bool-cases, length,
}
use iot_yk.Base.Bytes.{done, ◌>>=◌}
use iot_yk.Base.Looking.{◌>>=?◌, Ensures, Ensures-any, Ensures-run, Ensures-map, Ensures-if}
use iot_yk.Ota.{
  Ota, Call, Driver, ota_begin, ota_write, ota_end, ota_abort, set_boot_partition, restart,
  same_bytes, send_if, send_ota_pkt, send_missing, fail, parse_signature, chunk_index, count_chunks,
  open_partition, begin, write_chunk, chunk, install, complete, computed_hash, ota_service_handle,
}

-- The bytes in the partition after a row of calls: a start that succeeds empties it, a write that
-- succeeds adds to it.
unfoldable pub flash_after : List ℕ → List Call → List ℕ
flash_after flash [] = flash
flash_after flash (ota_begin true ∷ cs) = flash_after [] cs
flash_after flash (ota_write true bytes ∷ cs) = flash_after (flash ++ bytes) cs
flash_after flash (c ∷ cs) = flash_after flash cs

-- An image is closed.
unfoldable pub finalises : List Call → Bool
finalises [] = false
finalises (ota_end ∷ cs) = true
finalises (c ∷ cs) = finalises cs

-- A hash that is active has been given what is in the partition.
abbrev pub Matches : Option (List ℕ) → List ℕ → Type 0
Matches none flash = Unit
Matches (some given) flash = given ≡ flash

abbrev pub Hashed : Ota → List ℕ → Type 0
Hashed o flash = Matches o.sha_ctx flash

abbrev is_some : Option (List ℕ) → Bool
is_some none = false
is_some (some given) = true

-- Calls that neither touch the partition nor close an image, in front of a restart as well.
abbrev pub Quiet : List Call → Type 0
Quiet cs =
    ((flash : List ℕ) → flash_after flash cs ≡ flash)
    × (finalises cs ≡ false)
    × ((flash : List ℕ) → flash_after flash (cs ++ restart ∷ []) ≡ flash)
    × (finalises (cs ++ restart ∷ []) ≡ false)

send_if-Quiet : (has_send : Bool) (raw : List ℕ) → Quiet (send_if has_send raw)
unfolding flash_after finalises
send_if-Quiet has_send raw = elim (Bool-cases (not (length raw == 0) && has_send)) [
  | inl a ↦ rw a (λ flash. refl, refl, λ flash. refl, refl)
  | inr a ↦ rw a (λ flash. refl, refl, λ flash. refl, refl)
]

send_ota_pkt-Quiet :
    (mem : Memory) (o : Ota) (action : ℕ) → Ensures Quiet (some (send_ota_pkt mem o action))
unfolding send_ota_pkt flash_after finalises
send_ota_pkt-Quiet mem o action =
    let sends = transmit mem 64 (ota_packet o.device_id action) in
    elim (Bool-cases (not mem.packet_room)) [
      | inl full ↦ rw full (λ flash. refl, refl, λ flash. refl, refl)
      | inr room ↦ rw room (Ensures-map Quiet sends (send_if o.has_send) (send_if-Quiet o.has_send))
    ]

send_missing-Quiet : (mem : Memory) (o : Ota) → Ensures Quiet (some (send_missing mem o))
unfolding send_missing
send_missing-Quiet mem o = Ensures-map Quiet _ (send_if o.has_send) (send_if-Quiet o.has_send)

module _ (sha256 : List ℕ → List ℕ) where
  -- A step from a state, over a partition: the hash still goes over the partition, and an image is
  -- closed only if the hash over the partition is the one announced, where a hash is active.
  abbrev pub Checked : Ota → List ℕ → Ota × List Call → Type 0
  Checked o flash r =
      Hashed r.0 (flash_after flash r.1)
      × ((not (finalises r.1) || not (is_some o.sha_ctx) || same_bytes (sha256 flash) o.st.sha256)
          ≡ true)

  kept :
      (ctx : Option (List ℕ)) (flash bytes : List ℕ)
      → Matches ctx flash
      → Matches (ctx_with ctx bytes) (flash ++ bytes)
  kept none flash bytes h = tt
  kept (some given) flash bytes h = ap (◌++ bytes) h

  matched :
      (ctx : Option (List ℕ)) (flash stack announced : List ℕ)
      → Matches ctx flash
      → same_bytes (finish sha256 stack ctx) announced ≡ true
      → (not (is_some ctx) || same_bytes (sha256 flash) announced) ≡ true
  matched none flash stack announced h e = refl
  matched (some given) flash stack announced h e = rw h at e

  module _ (mem : Memory) (o : Ota) (flash : List ℕ) where
    -- Calls behind which nothing but a packet follows.
    after_sent :
        (o' : Ota) (calls : List Call) (action : ℕ)
        → ((sent : List Call) → Quiet sent → Checked o flash (o', calls ++ sent))
        → Ensures
            (Checked o flash)
            (some (send_ota_pkt mem o' action >>= λ sent. done (o', calls ++ sent)))
    after_sent o' calls action k =
        Ensures-run (Checked o flash) Quiet (send_ota_pkt mem o' action)
          (λ sent. (o', calls ++ sent)) (send_ota_pkt-Quiet mem o' action) k

    open_partition-Checked :
        (drv : Driver) (o' : Ota)
        → Hashed o flash
        → o'.sha_ctx ≡ o.sha_ctx
        → Ensures (Checked o flash) (open_partition mem drv o')
    unfolding open_partition fail flash_after finalises
    open_partition-Checked drv o' h same =
        Ensures-if (Checked o flash) (not drv.partition) _ _
          (after_sent (record o' { has_partition = drv.partition }) [] 0x08
            (λ sent q. (rw (q.0 flash, same) h, rw q.1)))
          (Ensures-if (Checked o flash) (not drv.begins) _ _
            (after_sent (record o' { has_partition = drv.partition }) (ota_begin false ∷ []) 0x08
              (λ sent q. (rw (q.0 flash, same) h, rw q.1)))
            (refl, refl))

    begin-Checked :
        (drv : Driver) (fuel : ℕ) (buf : List ℕ) (len : ℕ)
        → Hashed o flash
        → Ensures (Checked o flash) (begin mem drv fuel buf len o)
    unfolding begin fail flash_after finalises
    begin-Checked drv fuel buf len h =
        Ensures-any (Checked o flash) (announced fuel buf len) _ (λ (fits, s).
          Ensures-if (Checked o flash) (not fits) (fail mem (record o { st = s }) [])
            (parse_signature fuel buf len s >>=? λ s'.
              open_partition mem drv (record o { st = count_chunks s' }))
            (after_sent (record o { st = s }) [] 0x08 (λ sent q. (rw (q.0 flash) h, rw q.1)))
            (Ensures-any (Checked o flash) (parse_signature fuel buf len s) _
              (λ s'. open_partition-Checked drv (record o { st = count_chunks s' }) h refl)))

    write_chunk-Checked :
        (drv : Driver) (bytes : List ℕ)
        → Hashed o flash
        → Ensures (Checked o flash) (write_chunk mem drv bytes o)
    unfolding write_chunk flash_after finalises
    write_chunk-Checked drv bytes h =
        let st = o.st in
        Ensures-if (Checked o flash) drv.writes _ _ (kept o.sha_ctx flash bytes h, refl)
          (Ensures-run (Checked o flash) Quiet (send_ota_pkt mem o 0x08) _
            (send_ota_pkt-Quiet mem o 0x08) (λ sent q. (rw (q.0 flash) h, rw q.1)))

    write_found-Checked :
        (drv : Driver) (found : Option Tlv)
        → Hashed o flash
        → Ensures (Checked o flash) (write_found mem drv found o)
    unfolding write_found flash_after finalises
    write_found-Checked drv none h = (h, refl)
    write_found-Checked drv (some tlv) h =
        Ensures-any (Checked o flash) (some (split_at tlv.length tlv.value)) _
          (λ (bytes, behind). write_chunk-Checked drv bytes h)

    chunk-Checked :
        (drv : Driver) (fuel : ℕ) (buf : List ℕ) (len : ℕ)
        → Hashed o flash
        → Ensures (Checked o flash) (chunk mem drv fuel buf len o)
    unfolding chunk flash_after finalises
    chunk-Checked drv fuel buf len h =
        Ensures-if (Checked o flash) (not o.st.active) _ _ (h, refl)
          (Ensures-any (Checked o flash) (chunk_index fuel buf len) _ (λ index.
            Ensures-if (Checked o flash) (not (index == o.st.next_expected_chunk)) _ _
              (Ensures-run (Checked o flash) Quiet (send_missing mem o) _ (send_missing-Quiet mem o)
                (λ sent q. (rw (q.0 flash) h, rw q.1)))
              (Ensures-any (Checked o flash) (find fuel buf len 0x0d) _
                (λ found. write_found-Checked drv found h))))

    install-Checked :
        (drv : Driver) → Hashed o flash → Ensures (Checked o flash) (install mem drv o)
    unfolding install fail flash_after finalises
    install-Checked drv h =
        Ensures-if (Checked o flash) drv.boots _ _
          (Ensures-run (Checked o flash) Quiet (send_ota_pkt mem o 0x07) _
            (send_ota_pkt-Quiet mem o 0x07) (λ sent q. (rw (q.2 flash) h, rw q.3)))
          (after_sent o (set_boot_partition ∷ []) 0x08 (λ sent q. (rw (q.0 flash) h, rw q.1)))

    complete-Checked :
        (drv : Driver) → Hashed o flash → Ensures (Checked o flash) (complete mem drv sha256 o)
    unfolding complete computed_hash fail flash_after finalises
    complete-Checked drv h =
        let st = o.st in
        let met = matched o.sha_ctx flash drv.stack o.st.sha256 h in
        let finished = record o { sha_ctx = none } in
        let stopped = record finished { st = record st { active = false } } in
        Ensures-if (Checked o flash) (not o.st.active) _ _ (h, refl)
          (elim (Bool-cases (same_bytes (computed_hash mem drv sha256 o) o.st.sha256)) [
            | inr differs ↦
                rw differs (after_sent stopped (ota_abort ∷ []) 0x08 (λ sent q. (tt, rw q.1)))
            | inl agrees ↦ rw agrees (
                Ensures-if (Checked o flash) drv.ends _ _
                  (after_sent finished (ota_end ∷ []) 0x05 (λ sent q. (tt, met agrees)))
                  (after_sent stopped (ota_end ∷ []) 0x08 (λ sent q. (tt, met agrees))))
          ])

    image-Checked :
        (drv : Driver) (fuel : ℕ) (buf : List ℕ) (len action_id : ℕ)
        → Hashed o flash
        → Ensures (Checked o flash) (ota_service_handle mem drv sha256 fuel buf len action_id o)
    unfolding ota_service_handle flash_after finalises
    image-Checked drv fuel buf len action_id h =
        Ensures-if (Checked o flash) (action_id == 0x01) _ _ (begin-Checked drv fuel buf len h) (
          Ensures-if (Checked o flash) (action_id == 0x02) _ _ (chunk-Checked drv fuel buf len h) (
            Ensures-if (Checked o flash) (action_id == 0x04) _ _ (complete-Checked drv h) (
              Ensures-if (Checked o flash) (action_id == 0x06) _ _ (install-Checked drv h)
                (h, refl))))

    -- A message, in a state in which an active hash has been given the bytes in the partition. Where
    -- the run of the handler comes to its end, the same holds of the state and the partition after
    -- it, and if it closed an image while a hash was active, then the SHA-256 of the bytes in the
    -- partition is the hash that the state held. A start sets that hash to the first 32 bytes that
    -- `ykp_tlv_find` answers for key 0x0e, or to zeros where it answers none or another length than
    -- 32; every other message leaves it as it was.
    pub handle-Checked :
        (drv : Driver) (fuel : ℕ) (buf : List ℕ) (len action_id : ℕ)
        → Hashed o flash
        → Ensures
            (λ (r : Ota × List Call). Checked o flash r × HoldsHash fuel buf len action_id o r.0)
            (ota_service_handle mem drv sha256 fuel buf len action_id o)
    handle-Checked drv fuel buf len action_id h =
        Ensures-both (Checked o flash)
          (λ (r : Ota × List Call). HoldsHash fuel buf len action_id o r.0)
          (ota_service_handle mem drv sha256 fuel buf len action_id o)
          (image-Checked drv fuel buf len action_id h)
          (handle-HoldsHash fuel buf len mem drv o sha256 action_id)
