-- ===== src/Ota/Announced.antt =====
-- The hash that a start announces, through ota_service.c: a start stores it, and no other message
-- touches it.
use iot_yk.Base.{
  ℕ, zero, suc, ◌≤◌, ◌≡◌, inl, inr, refl, ◌∙◌, Bool, true, false, not, Option, none, some, List, [],
  ◌∷◌, ◌++◌, leb, ◌==◌, if◌then◌else◌, Bool-cases, length, take, length-take, replicate, arith,
}
use mathlib.Core.List.{append-nil}
use iot_yk.Base.Bytes.{done, fault, ◌>>=◌, split_at, overwrite, overwrite-append}
use iot_yk.Base.Looking.{
  Looking, ◌>>=?◌, Ensures, Ensures-any, Ensures-then, Ensures-map, Ensures-if, Ensures-run,
  Ensures-weaken,
}
use iot_yk.Report.{Memory}
use iot_yk.Tlv.Find.{Tlv, find}
use iot_yk.Ota.{
  Ota, OtaState, Driver, Call, ota_begin, ota_end, ota_abort, set_boot_partition, blank,
  take_version, parse_version, take_size, parse_size, take_hash, parse_hash, parse_signature,
  announced, copy_value, same_bytes, computed_hash, count_chunks, fail, send_ota_pkt, send_missing,
  chunk_index, open_partition, begin, write_chunk, write_found, chunk, install, complete,
  ota_service_handle,
}

-- The 32 bytes under the key of the hash; zeros for a value of another length, or for none.
abbrev pub hash_given : Option Tlv → List ℕ
hash_given none = replicate 32 0
hash_given (some tlv) = if tlv.length == 32 then take 32 tlv.value else replicate 32 0

-- What the state holds after a message: what a start has under 0x0e, and else what it held.
abbrev pub HoldsHash : ℕ → List ℕ → ℕ → ℕ → Ota → Ota → Type 0
HoldsHash fuel buf len (suc zero) o o' =
    (found : Option Tlv) × (find fuel buf len 0x0e ≡ some (done found))
    × (o'.st.sha256 ≡ hash_given found)
HoldsHash fuel buf len _ o o' = o'.st.sha256 ≡ o.st.sha256

-- No hash yet.
abbrev Empty : OtaState → Type 0
Empty s = s.sha256 ≡ replicate 32 0

abbrev SameHash : Ota → Ota × List Call → Type 0
SameHash o r = r.0.st.sha256 ≡ o.st.sha256

-- 32 bytes of a value over an array of 32.
copied_hash :
    (value arr : List ℕ)
    → arr ≡ replicate 32 0
    → Ensures
        (λ (out : List ℕ). out ≡ take 32 value)
        (some (split_at 32 value >>= λ (bytes, behind). overwrite bytes arr))
copied_hash value arr h = elim (Bool-cases (leb 32 (length value))) [
  | inl long ↦
      let taken : length (take 32 value) ≡ 32 = ground (arith, long, length-take {0} 32 value) in
      let room : length (take 32 value) ≤ length (replicate {A = ℕ} 32 0) = omega (arith, taken) in
      rw (long, h, overwrite-append (take 32 value) (replicate 32 0) room, taken)
        (append-nil (take 32 value))
  | inr short ↦ rw short tt
]

module _ (fuel : ℕ) (buf : List ℕ) (len : ℕ) where
  abbrev Given : OtaState → Type 0
  Given s =
      (found : Option Tlv) × (find fuel buf len 0x0e ≡ some (done found))
      × (s.sha256 ≡ hash_given found)

  take_version-Empty :
      (found : Option Tlv) (s : OtaState)
      → Empty s
      → Ensures Empty (some (take_version fuel buf len found s))
  unfolding take_version
  take_version-Empty none s h = h
  take_version-Empty (some tlv) s h =
      Ensures-map Empty (copy_value tlv 15 s.version) (λ version. record s { version = version })
        (λ version. h)

  take_size-Empty :
      (found : Option Tlv) (s : OtaState)
      → Empty s
      → Ensures Empty (some (take_size fuel buf len found s))
  unfolding take_size
  take_size-Empty none s h = h
  take_size-Empty (some tlv) s h = Ensures-map Empty _ _ (λ size. h)

  take_hash-given :
      (found : Option Tlv) (s : OtaState)
      → Empty s
      → Ensures
          (λ (r : Bool × OtaState). r.1.sha256 ≡ hash_given found)
          (some (take_hash fuel buf len found s))
  unfolding take_hash copy_value
  take_hash-given none s h = h
  take_hash-given (some tlv) s h = elim (Bool-cases (tlv.length == 32)) [
    | inl fits ↦
        let size : tlv.length ≡ 32 = ground (arith, fits) in
        rw size (
          Ensures-run (λ (r : Bool × OtaState). r.1.sha256 ≡ take 32 tlv.value)
            (λ (out : List ℕ). out ≡ take 32 tlv.value)
            (split_at 32 tlv.value >>= λ (bytes, behind). overwrite bytes s.sha256)
            (λ sha256. (true, record s { sha256 = sha256 })) (copied_hash tlv.value s.sha256 h)
            (λ out e. e))
    | inr other ↦ rw other h
  ]

  parse_hash_found :
      (found : Looking (Option Tlv)) (s : OtaState)
      → find fuel buf len 0x0e ≡ found
      → Empty s
      → Ensures
          (λ (r : Bool × OtaState). Given r.1)
          (found >>=? λ tlv. some (take_hash fuel buf len tlv s))
  parse_hash_found none s e h = tt
  parse_hash_found (some fault) s e h = tt
  parse_hash_found (some (done found)) s e h =
      Ensures-weaken (λ (r : Bool × OtaState). r.1.sha256 ≡ hash_given found)
        (λ (r : Bool × OtaState). Given r.1) (some (take_hash fuel buf len found s))
        (λ r same. (found, e, same)) (take_hash-given found s h)

  announced-Given : Ensures (λ (r : Bool × OtaState). Given r.1) (announced fuel buf len)
  unfolding announced parse_version parse_size parse_hash blank
  announced-Given =
      Ensures-then (λ (r : Bool × OtaState). Given r.1) Empty
        (parse_version fuel buf len blank >>=? parse_size fuel buf len) (parse_hash fuel buf len)
        (Ensures-then Empty Empty (parse_version fuel buf len blank) (parse_size fuel buf len)
          (Ensures-any Empty (find fuel buf len 0x08) _
            (λ found. take_version-Empty found blank refl))
          (λ s h.
            Ensures-any Empty (find fuel buf len 0x04) _ (λ found. take_size-Empty found s h)))
        (λ s h. parse_hash_found (find fuel buf len 0x0e) s refl h)

  sign_found-Given :
      (found : Option Tlv) (s : OtaState)
      → Given s
      → Ensures Given (elim found [
        | none ↦ some (done s)
        | some tlv ↦
            some (copy_value tlv 64 s.ecdsa_sig >>= λ sig. done (record s { ecdsa_sig = sig }))
      ])
  sign_found-Given none s h = h
  sign_found-Given (some tlv) s h =
      Ensures-map Given (copy_value tlv 64 s.ecdsa_sig) (λ sig. record s { ecdsa_sig = sig })
        (λ sig. h)

  parse_signature-Given : (s : OtaState) → Given s → Ensures Given (parse_signature fuel buf len s)
  unfolding parse_signature
  parse_signature-Given s h =
      Ensures-any Given (find fuel buf len 0x0b) _ (λ found. sign_found-Given found s h)

  module _ (mem : Memory) (drv : Driver) (o : Ota) where
    fail-SameHash : (o' : Ota) (calls : List Call) → Ensures (SameHash o') (fail mem o' calls)
    unfolding fail
    fail-SameHash o' calls =
        Ensures-map (SameHash o') (send_ota_pkt mem o' 0x08) (λ sent. (o', calls ++ sent))
          (λ sent. refl)

    open_partition-SameHash : (o' : Ota) → Ensures (SameHash o') (open_partition mem drv o')
    unfolding open_partition
    open_partition-SameHash o' =
        let found = record o' { has_partition = drv.partition } in
        Ensures-if (SameHash o') (not drv.partition) _ _ (fail-SameHash found []) (
          Ensures-if (SameHash o') (not drv.begins) _ _ (fail-SameHash found (ota_begin false ∷ []))
            refl)

    begin-HoldsHash : Ensures (λ (r : Ota × List Call). Given r.0.st) (begin mem drv fuel buf len o)
    unfolding begin count_chunks
    begin-HoldsHash =
        let G : Ota × List Call → Type 0 = λ r. Given r.0.st in
        let opened = λ (s : OtaState). open_partition mem drv (record o { st = count_chunks s }) in
        Ensures-then G (λ (r : Bool × OtaState). Given r.1) (announced fuel buf len) _
          announced-Given
          (λ r h.
            Ensures-if G (not r.0) _ _
              (Ensures-weaken (SameHash (record o { st = r.1 })) G
                (fail mem (record o { st = r.1 }) []) (λ a same. (h.0, h.1, same ∙ h.2))
                (fail-SameHash (record o { st = r.1 }) []))
              (Ensures-then G Given (parse_signature fuel buf len r.1) opened
                (parse_signature-Given r.1 h)
                (λ s k.
                  Ensures-weaken (SameHash (record o { st = count_chunks s })) G
                    (open_partition mem drv (record o { st = count_chunks s }))
                    (λ a same. (k.0, k.1, same ∙ k.2))
                    (open_partition-SameHash (record o { st = count_chunks s })))))

    write_chunk-SameHash : (bytes : List ℕ) → Ensures (SameHash o) (write_chunk mem drv bytes o)
    unfolding write_chunk
    write_chunk-SameHash bytes =
        Ensures-if (SameHash o) drv.writes _ _ refl
          (Ensures-map (SameHash o) (send_ota_pkt mem o 0x08) _ (λ sent. refl))

    write_found-SameHash : (found : Option Tlv) → Ensures (SameHash o) (write_found mem drv found o)
    unfolding write_found
    write_found-SameHash none = refl
    write_found-SameHash (some tlv) =
        Ensures-any (SameHash o) (some (split_at tlv.length tlv.value)) _
          (λ (bytes, behind). write_chunk-SameHash bytes)

    chunk-SameHash : Ensures (SameHash o) (chunk mem drv fuel buf len o)
    unfolding chunk
    chunk-SameHash = Ensures-if (SameHash o) (not o.st.active) _ _ refl (
        Ensures-any (SameHash o) (chunk_index fuel buf len) _ (λ index.
          Ensures-if (SameHash o) (not (index == o.st.next_expected_chunk)) _ _
            (Ensures-map (SameHash o) (send_missing mem o) _ (λ sent. refl))
            (Ensures-any (SameHash o) (find fuel buf len 0x0d) _
              (λ found. write_found-SameHash found))))

    install-SameHash : Ensures (SameHash o) (install mem drv o)
    unfolding install
    install-SameHash =
        Ensures-if (SameHash o) drv.boots _ _
          (Ensures-map (SameHash o) (send_ota_pkt mem o 0x07) _ (λ sent. refl))
          (fail-SameHash o (set_boot_partition ∷ []))

    complete-SameHash :
        (sha256 : List ℕ → List ℕ) → Ensures (SameHash o) (complete mem drv sha256 o)
    unfolding complete
    complete-SameHash sha256 =
        let finished = record o { sha_ctx = none } in
        let stopped = record finished { st = record o.st { active = false } } in
        Ensures-if (SameHash o) (not o.st.active) _ _ refl (
          Ensures-if (SameHash o) (not (same_bytes (computed_hash mem drv sha256 o) o.st.sha256)) _
            _ (fail-SameHash stopped (ota_abort ∷ []))
            (Ensures-if (SameHash o) drv.ends _ _
              (Ensures-map (SameHash o) (send_ota_pkt mem finished 0x05) _ (λ sent. refl))
              (fail-SameHash stopped (ota_end ∷ []))))

    handle-SameHash :
        (sha256 : List ℕ → List ℕ) (action_id : ℕ)
        → (action_id == 0x01) ≡ false
        → Ensures (SameHash o) (ota_service_handle mem drv sha256 fuel buf len action_id o)
    unfolding ota_service_handle
    handle-SameHash sha256 action_id other = rw other (
        Ensures-if (SameHash o) (action_id == 0x02) _ _ chunk-SameHash (
          Ensures-if (SameHash o) (action_id == 0x04) _ _ (complete-SameHash sha256) (
            Ensures-if (SameHash o) (action_id == 0x06) _ (some (done (o, []))) install-SameHash
              refl)))

    pub handle-HoldsHash :
        (sha256 : List ℕ → List ℕ) (action_id : ℕ)
        → Ensures
            (λ (r : Ota × List Call). HoldsHash fuel buf len action_id o r.0)
            (ota_service_handle mem drv sha256 fuel buf len action_id o)
    unfolding ota_service_handle
    handle-HoldsHash sha256 zero = refl
    handle-HoldsHash sha256 (suc zero) = begin-HoldsHash
    handle-HoldsHash sha256 (suc (suc n)) =
        let other : (suc (suc n) == 0x01) ≡ false = ground arith in
        handle-SameHash sha256 (suc (suc n)) other
