-- ===== src/Ota.antt =====
-- esp32-firmware/main/services/ota_service.c and ota_service.h: the update over the air. What the
-- flash driver answers is an argument, SHA-256 is a parameter, and the calls of drivers are a list.
-- Log lines are left out. `mem.raw` stands for the array that is serialised into.
pub mod Announced
pub mod Image
pub mod Refused
mod Examples
use iot_yk.Base.{
  ℕ, ◌+◌, ◌/◌, Bool, true, false, not, ◌&&◌, Option, none, some, List, [], ◌∷◌, ◌++◌, ltb, ◌==◌,
  if◌then◌else◌, length, replicate,
}
use iot_yk.Base.Looking.{Looking, ◌>>=?◌}
use iot_yk.Base.Bytes.{Run, done, fault, ◌>>=◌, split_at, overwrite, u16, u32}
use iot_yk.Packet.{Packet, zeroed, set_header}
use iot_yk.Tlv.{builder_init, add_uint16}
use iot_yk.Tlv.Find.{Tlv, find}
use iot_yk.Tlv.Read.{read_uint16, read_uint32}
use iot_yk.Report.{Memory, transmit, report}
use iot_yk.Io.{c_string, server_name}

pub record OtaState : Type 0 where
  pub version : List ℕ
  pub firmware_size : ℕ
  pub chunk_size : ℕ
  pub chunks_total : ℕ
  pub sha256 : List ℕ
  pub ecdsa_sig : List ℕ
  pub active : Bool
  pub next_expected_chunk : ℕ

-- `memset(&s_state, 0, sizeof(s_state))`
unfoldable pub blank : OtaState
blank = record {
  version = replicate 16 0;
  firmware_size = 0;
  chunk_size = 0;
  chunks_total = 0;
  sha256 = replicate 32 0;
  ecdsa_sig = replicate 64 0;
  active = false;
  next_expected_chunk = 0;
}

-- The static variables. `sha_ctx` holds what an active hash has been given; `has_partition` says
-- that `s_ota_partition` is not NULL.
pub record Ota : Type 0 where
  pub st : OtaState
  pub has_send : Bool
  pub device_id : List ℕ
  pub has_partition : Bool
  pub sha_ctx : Option (List ℕ)

-- The calls of drivers; a start and a write with their answers.
pub data Call : Type 0 where
  ota_begin : Bool → Call
  ota_write : Bool → List ℕ → Call
  ota_end : Call
  ota_abort : Call
  set_boot_partition : Call
  send : List ℕ → Call
  restart : Call

-- The answers of a partition lookup and of the driver's calls, and what the stack holds where the
-- computed hash goes.
pub record Driver : Type 0 where
  pub partition : Bool
  pub begins : Bool
  pub writes : Bool
  pub ends : Bool
  pub boots : Bool
  pub stack : List ℕ

unfoldable pub ota_packet : List ℕ → ℕ → Packet
ota_packet device_id action =
    set_header zeroed 0 0 (some (c_string device_id)) (some server_name) 0x06 0x05 action 1 false

-- `if (len && s_send) s_send(raw, len)`
abbrev pub send_if : Bool → List ℕ → List Call
send_if has_send raw = if not (length raw == 0) && has_send then send raw ∷ [] else []

unfoldable pub send_ota_pkt : Memory → Ota → ℕ → Run (List Call)
unfolding ota_packet
send_ota_pkt mem o action =
    if not mem.packet_room
    then done []
    else transmit mem 64 (ota_packet o.device_id action) >>= λ raw. done (send_if o.has_send raw)

-- The request for a chunk that is missing.
unfoldable pub send_missing : Memory → Ota → Run (List Call)
unfolding ota_packet
send_missing mem o =
    let b = (add_uint16 (builder_init mem.tlv_buf 8) 0x0c o.st.next_expected_chunk).1 in
    report mem 80 (ota_packet o.device_id 0x03) b >>= λ raw. done (send_if o.has_send raw)

-- A call that ends with `OTA_FAIL`, behind the calls before it.
unfoldable pub fail : Memory → Ota → List Call → Looking (Ota × List Call)
fail mem o calls = some (send_ota_pkt mem o 0x08 >>= λ sent. done (o, calls ++ sent))

-- `memcpy` of an entry's value, `most` bytes at most, to the start of an array.
unfoldable pub copy_value : Tlv → ℕ → List ℕ → Run (List ℕ)
copy_value tlv most arr =
    let n = if ltb tlv.length most then tlv.length else most in
    split_at n tlv.value >>= λ (bytes, behind). overwrite bytes arr

-- The payload is `len` bytes of the memory `buf`.
module _ (fuel : ℕ) (buf : List ℕ) (len : ℕ) where
  unfoldable pub take_version : Option Tlv → OtaState → Run OtaState
  unfolding copy_value
  take_version none s = done s
  take_version (some tlv) s =
      copy_value tlv 15 s.version >>= λ version. done (record s { version = version })

  unfoldable pub parse_version : OtaState → Looking OtaState
  parse_version s = find fuel buf len 0x08 >>=? λ found. some (take_version found s)

  unfoldable pub take_size : Option Tlv → OtaState → Run OtaState
  take_size none s = done s
  take_size (some tlv) s = read_uint32 tlv >>= λ out.
      done (record s { firmware_size = elim out [ none ↦ s.firmware_size | some size ↦ size ] })

  unfoldable pub parse_size : OtaState → Looking OtaState
  parse_size s = find fuel buf len 0x04 >>=? λ found. some (take_size found s)

  -- Answers false for a hash that is not 32 bytes long.
  unfoldable pub take_hash : Option Tlv → OtaState → Run (Bool × OtaState)
  unfolding copy_value
  take_hash none s = done (true, s)
  take_hash (some tlv) s =
      let copied =
        copy_value tlv 32 s.sha256 >>= λ sha256. done (true, record s { sha256 = sha256 }) in
      if not (tlv.length == 32) then done (false, s) else copied

  unfoldable pub parse_hash : OtaState → Looking (Bool × OtaState)
  parse_hash s = find fuel buf len 0x0e >>=? λ found. some (take_hash found s)

  unfoldable pub parse_signature : OtaState → Looking OtaState
  unfolding copy_value
  parse_signature s = find fuel buf len 0x0b >>=? λ found. elim found [
    | none ↦ some (done s)
    | some tlv ↦ some (copy_value tlv 64 s.ecdsa_sig >>= λ sig. done (record s { ecdsa_sig = sig }))
  ]

  -- What a start announces, up to the hash.
  unfoldable pub announced : Looking (Bool × OtaState)
  announced = parse_version blank >>=? parse_size >>=? parse_hash

  -- `chunk_idx`, 0 without an index.
  unfoldable pub chunk_index : Looking ℕ
  chunk_index = find fuel buf len 0x0c >>=? λ found. elim found [
    | none ↦ some (done 0)
    | some tlv ↦ some (read_uint16 tlv >>= λ out. done (elim out [ none ↦ 0 | some index ↦ index ]))
  ]

-- `memcmp(…) == 0` of two arrays of the same size.
unfoldable pub same_bytes : List ℕ → List ℕ → Bool
same_bytes [] [] = true
same_bytes (x ∷ xs) (y ∷ ys) = x == y && same_bytes xs ys
same_bytes _ _ = false

-- The chunks of a firmware; the sum and the number are cut to their types.
unfoldable pub count_chunks : OtaState → OtaState
count_chunks s = record s {
  chunk_size = 4096;
  chunks_total = u16 (u32 (s.firmware_size + 4095) / 4096);
}

-- `psa_hash_update`; without an active hash it does nothing.
abbrev pub ctx_with : Option (List ℕ) → List ℕ → Option (List ℕ)
ctx_with none bytes = none
ctx_with (some given) bytes = some (given ++ bytes)

-- What `psa_hash_finish` leaves in an array: nothing new where no hash is active.
abbrev pub finish : (List ℕ → List ℕ) → List ℕ → Option (List ℕ) → List ℕ
finish sha256 stack none = stack
finish sha256 stack (some given) = sha256 given

module _ (mem : Memory) (drv : Driver) where
  -- The partition is opened, and the hash is started.
  unfoldable pub open_partition : Ota → Looking (Ota × List Call)
  open_partition o =
      let found = record o { has_partition = drv.partition } in
      let st = record o.st { active = true; next_expected_chunk = 0 } in
      if not drv.partition
      then fail mem found []
      else if not drv.begins
      then fail mem found (ota_begin false ∷ [])
      else some (done (record found { st = st; sha_ctx = some [] }, ota_begin true ∷ []))

  unfoldable pub begin : ℕ → List ℕ → ℕ → Ota → Looking (Ota × List Call)
  begin fuel buf len o = announced fuel buf len >>=? λ (fits, s).
      if not fits
      then fail mem (record o { st = s }) []
      else parse_signature fuel buf len s >>=? λ s'.
          open_partition (record o { st = count_chunks s' })

  -- The bytes of a chunk are written, and hashed if the write succeeds.
  unfoldable pub write_chunk : List ℕ → Ota → Looking (Ota × List Call)
  write_chunk bytes o =
      let st = o.st in
      let stopped = record o { st = record st { active = false } } in
      let next = record st { next_expected_chunk = u16 (st.next_expected_chunk + 1) } in
      if drv.writes
      then some (
          done
            (record o { st = next; sha_ctx = ctx_with o.sha_ctx bytes }, ota_write true bytes ∷ []))
      else some (send_ota_pkt mem o 0x08 >>= λ sent. done (stopped, ota_write false bytes ∷ sent))

  unfoldable pub write_found : Option Tlv → Ota → Looking (Ota × List Call)
  write_found none o = some (done (o, []))
  write_found (some tlv) o =
      some (split_at tlv.length tlv.value) >>=? λ (bytes, behind). write_chunk bytes o

  unfoldable pub chunk : ℕ → List ℕ → ℕ → Ota → Looking (Ota × List Call)
  chunk fuel buf len o =
      let store = find fuel buf len 0x0d >>=? λ found. write_found found o in
      let take_next = chunk_index fuel buf len >>=? λ index.
      if not (index == o.st.next_expected_chunk)
      then some (send_missing mem o >>= λ sent. done (o, sent))
      else store in
      if not o.st.active then some (done (o, [])) else take_next

  unfoldable pub install : Ota → Looking (Ota × List Call)
  install o =
      if drv.boots
      then some
          (send_ota_pkt mem o 0x07 >>= λ sent. done (o, set_boot_partition ∷ sent ++ restart ∷ []))
      else fail mem o (set_boot_partition ∷ [])

  module _ (sha256 : List ℕ → List ℕ) where
    unfoldable pub computed_hash : Ota → List ℕ
    computed_hash o = finish sha256 drv.stack o.sha_ctx

    unfoldable pub complete : Ota → Looking (Ota × List Call)
    complete o =
        let st = o.st in
        let finished = record o { sha_ctx = none } in
        let stopped = record finished { st = record st { active = false } } in
        let close =
          if drv.ends
          then some (send_ota_pkt mem finished 0x05 >>= λ sent. done (finished, ota_end ∷ sent))
          else fail mem stopped (ota_end ∷ []) in
        if not o.st.active
        then some (done (o, []))
        else if not (same_bytes (computed_hash o) o.st.sha256)
        then fail mem stopped (ota_abort ∷ [])
        else close

    unfoldable pub ota_service_handle : ℕ → List ℕ → ℕ → ℕ → Ota → Looking (Ota × List Call)
    ota_service_handle fuel buf len action_id o =
        if action_id == 0x01
        then begin fuel buf len o
        else if action_id == 0x02
        then chunk fuel buf len o
        else if action_id == 0x04
        then complete o
        else if action_id == 0x06
        then install o
        else some (done (o, []))

unfoldable pub ota_service_init : List ℕ → Bool → Ota → Ota
ota_service_init device_id has_send o = record o { has_send = has_send; device_id = device_id }

unfoldable pub ota_service_is_active : Ota → Bool
ota_service_is_active o = o.st.active
