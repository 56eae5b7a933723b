-- ===== src/Ota/Refused.antt =====
-- A start message that announces a hash; ota_service.c.
use iot_yk.Ota.{take_hash, take_version, take_size}
use iot_yk.Base.{
  ℕ, ◌+◌, ◌≤◌, ◌≡◌, refl, Bool, false, Option, none, some, List, ◌∷◌, ◌++◌, length, arith,
}
use iot_yk.Base.Bytes.{done}
use iot_yk.Base.Looking.{◌>>=?◌, Ensures, Ensures-any, Ensures-then, Ensures-map}
use iot_yk.Cbor.Encoding.{head_bytes}
use iot_yk.Report.{Memory}
use iot_yk.Tlv.Find.{Tlv, find}
use iot_yk.Tlv.Build.{bytes, field_bytes}
use iot_yk.Tlv.RoundTrip.{Entries, AreEntries, entries_bytes, field_of}
use iot_yk.Tlv.Built.{find_entries, length-entries_bytes}
use iot_yk.Ota.{
  Ota, OtaState, Driver, blank, parse_version, parse_size, parse_hash, announced, begin, fail,
  send_ota_pkt, ota_service_handle, ota_service_is_active,
}

-- A state of an update that is not under way.
abbrev Idle : OtaState → Type 0
Idle s = s.active ≡ false

length-hash : (bs : List ℕ) → length bs ≡ 32 → length (field_bytes (bytes bs)) ≡ 34
unfolding field_bytes head_bytes
length-hash bs e = rw e (omega (arith, e))

module _ (fuel : ℕ) (buf : List ℕ) (len : ℕ) where
  take_version-Idle :
      (found : Option Tlv) → Ensures Idle (some (take_version fuel buf len found blank))
  unfolding take_version blank
  take_version-Idle none = refl
  take_version-Idle (some tlv) = Ensures-map Idle _ _ (λ version. refl)

  take_size-Idle :
      (found : Option Tlv) (s : OtaState)
      → Idle s
      → Ensures Idle (some (take_size fuel buf len found s))
  unfolding take_size
  take_size-Idle none s h = h
  take_size-Idle (some tlv) s h = Ensures-map Idle _ _ (λ out. h)

  -- Up to the hash, which is refused.
  announced-Idle :
      (hash : Tlv)
      → find fuel buf len 0x0e ≡ some (done (some hash))
      → hash.length ≡ 34
      → Ensures (λ r. (r.0 ≡ false) × Idle r.1) (announced fuel buf len)
  unfolding announced parse_version parse_size parse_hash take_hash
  announced-Idle hash found e =
      let Refused : Bool × OtaState → Type 0 = λ r. (r.0 ≡ false) × Idle r.1 in
      Ensures-then Refused Idle (parse_version fuel buf len blank >>=? parse_size fuel buf len)
        (parse_hash fuel buf len)
        (Ensures-then Idle Idle (parse_version fuel buf len blank) (parse_size fuel buf len)
          (Ensures-any Idle (find fuel buf len 0x08) _ (λ v. take_version-Idle v))
          (λ s h. Ensures-any Idle (find fuel buf len 0x04) _ (λ v. take_size-Idle v s h)))
        (λ s h. rw (found, e) (refl, h))

module _ (mem : Memory) (drv : Driver) (sha256 : List ℕ → List ℕ) where
  begin-Idle :
      (fuel : ℕ) (buf : List ℕ) (len : ℕ) (o : Ota) (hash : Tlv)
      → find fuel buf len 0x0e ≡ some (done (some hash))
      → hash.length ≡ 34
      → Ensures (λ r. ota_service_is_active r.0 ≡ false) (begin mem drv fuel buf len o)
  unfolding begin fail ota_service_is_active
  begin-Idle fuel buf len o hash found e =
      Ensures-then (λ r. r.0.st.active ≡ false) (λ r. (r.0 ≡ false) × Idle r.1)
        (announced fuel buf len) _ (announced-Idle fuel buf len hash found e)
        (λ (fits, s) h. rw h.0 (
          Ensures-map (λ r. r.0.st.active ≡ false) (send_ota_pkt mem (record o { st = s }) 0x08) _
            (λ sent. h.1)))

  -- A start message whose map has a hash of 32 bytes, as the builder writes it, does not start the
  -- update: where the run of the handler comes to its end, no update is active, since the length
  -- that `ykp_tlv_find` answers counts the two bytes of the CBOR head as well.
  pub hash-Refused :
      (o : Ota) (fs : Entries) (bs rest buf : List ℕ)
      → AreEntries fs
      → field_of fs 0x0e ≡ some (bytes bs)
      → length bs ≡ 32
      → buf ≡ 0xbf ∷ entries_bytes fs ++ 0xff ∷ rest
      → length (entries_bytes fs) ≤ 510
      → let len = 2 + length (entries_bytes fs) in
        Ensures
          (λ r. ota_service_is_active r.0 ≡ false)
          (ota_service_handle mem drv sha256 len buf len 0x01 o)
  unfolding ota_service_handle
  hash-Refused o fs bs rest buf v held e b small =
      let len = 2 + length (entries_bytes fs) in
      let found =
        find_entries len len 0x0e buf fs rest v b (omega arith) (omega arith)
          (omega (arith, length-entries_bytes fs v)) in
      let (after, hit) = rw held at found in begin-Idle len buf len o _ hit (length-hash bs e)
