-- ===== src/Packet/Ownership.antt =====
-- Memory safety of the packet functions: reads and copies stay in their arrays on any input, and
-- only heap memory is freed.
use iot_yk.Base.{
  ℕ, ◌+◌, ◌<◌, ◌≤◌, ◌≡◌, ◌⊎◌, inl, inr, refl, Bool, true, false, not, ◌&&◌, ◌||◌, List, [], ◌∷◌,
  ltb, leb-true, ◌==◌, if◌then◌else◌, length, length-append, take, drop, length-drop, length-take,
  arith, Bool-cases,
}
use iot_yk.Base.Bytes.{Run, done, ◌>>=◌, next, split_at, overwrite, u16, overwrite-append}
use iot_yk.Wire.{read_u16_be, read_u32_be}
use iot_yk.Packet.{
  Packet, Payload, null, heap, rx_static, free_payload, magic_0, magic_1, version_5,
}
use iot_yk.Packet.Read.{read_header, validate_header, read_tag, read_body, parse}

-- The reader returns, `n` bytes further on in an input of `len` bytes.
record Reads {ℓ} {A : Type ℓ} (n len : ℕ) (r : Run (A × List ℕ)) : Type ℓ where
  value : A
  rest : List ℕ
  returns : r ≡ done (value, rest)
  moved : n + length rest ≡ len

next-Reads : (p : List ℕ) → 1 ≤ length p → Reads 1 (length p) (next p)
next-Reads [] h = elim h [ ]
next-Reads (x ∷ p) h = record { value = x; rest = p; returns = refl; moved = omega arith }

split_at-Reads : (n : ℕ) (p : List ℕ) → n ≤ length p → Reads n (length p) (split_at n p)
split_at-Reads n p h = record {
  value = take n p;
  rest = drop n p;
  returns = rw (leb-true n (length p) h);
  moved = omega (arith, length-drop n p);
}

done-Reads {ℓ} : {A : Type ℓ} (v : A) (p : List ℕ) → Reads 0 (length p) (done (v, p))
done-Reads v p = record { value = v; rest = p; returns = refl; moved = omega arith }

-- One reader after another, in an input that is long enough for both.
then-Reads {ℓ κ} :
    {A : Type ℓ} {B : Type κ} (n m : ℕ) (p : List ℕ) (r : Run (A × List ℕ))
    (f : A × List ℕ → Run (B × List ℕ))
    → n + m ≤ length p
    → Reads n (length p) r
    → ((v : A) (q : List ℕ) → m ≤ length q → Reads m (length q) (f (v, q)))
    → Reads (n + m) (length p) (r >>= f)
then-Reads n m p r f h a k =
    let b = k a.value a.rest (omega (arith, a.moved)) in
    record {
      value = b.value;
      rest = b.rest;
      returns = rw a.returns b.returns;
      moved = omega (arith, a.moved, b.moved);
    }

byte-Reads {ℓ} :
    {B : Type ℓ} (m : ℕ) (p : List ℕ) (f : ℕ × List ℕ → Run (B × List ℕ))
    → 1 + m ≤ length p
    → ((v : ℕ) (q : List ℕ) → m ≤ length q → Reads m (length q) (f (v, q)))
    → Reads (1 + m) (length p) (next p >>= f)
byte-Reads m p f h k = then-Reads 1 m p (next p) f h (next-Reads p (omega arith)) k

read_u16_be-Reads : (p : List ℕ) → 2 ≤ length p → Reads 2 (length p) (read_u16_be p)
unfolding read_u16_be
read_u16_be-Reads p h = byte-Reads 1 p _ h λ b0 p h. byte-Reads 0 p _ h λ b1 p h. done-Reads _ p

read_u32_be-Reads : (p : List ℕ) → 4 ≤ length p → Reads 4 (length p) (read_u32_be p)
unfolding read_u32_be
read_u32_be-Reads p h = byte-Reads 3 p _ h λ b0 p h.
    byte-Reads 2 p _ h
      λ b1 p h. byte-Reads 1 p _ h λ b2 p h. byte-Reads 0 p _ h λ b3 p h. done-Reads _ p

read_header-Reads : (p : List ℕ) → 33 ≤ length p → Reads 33 (length p) (read_header p)
unfolding read_header
read_header-Reads p h = byte-Reads 32 p _ h λ m0 p h. byte-Reads 31 p _ h λ m1 p h.
    byte-Reads 30 p _ h λ ver p h. byte-Reads 29 p _ h λ flags p h.
      then-Reads 4 25 p _ _ h (read_u32_be-Reads p (omega arith)) λ packet_id p h.
        then-Reads 4 21 p _ _ h (read_u32_be-Reads p (omega arith)) λ session_id p h.
          then-Reads 8 13 p _ _ h (split_at-Reads 8 p (omega arith)) λ source_id p h.
            then-Reads 8 5 p _ _ h (split_at-Reads 8 p (omega arith)) λ dest_id p h.
              byte-Reads 4 p _ h λ route p h. byte-Reads 3 p _ h λ service p h.
                byte-Reads 2 p _ h λ action p h.
                  then-Reads 2 0 p _ _ h (read_u16_be-Reads p h) λ len p h. done-Reads _ p

-- What an accepted packet of `raw_len` bytes holds: a payload that fits the static buffer and lies
-- in it, or none.
pub record IsAccepted (raw_len : ℕ) (pkt : Packet) : Type 0 where
  pub small : pkt.payload_len ≤ 512
  pub whole : 49 + pkt.payload_len ≤ raw_len
  pub owner : pkt.payload ≡ (if pkt.payload_len == 0 then null else rx_static)

-- A parse that returns: with false, or with a packet that is fit to use.
pub record IsSafe (raw_len : ℕ) (r : Run (Bool × Packet × List ℕ)) : Type 0 where
  pub answer : Bool
  pub pkt : Packet
  pub rx_buf : List ℕ
  pub returns : r ≡ done (answer, pkt, rx_buf)
  pub same_length : length rx_buf ≡ 512
  pub outcome : (answer ≡ false) ⊎ ((answer ≡ true) × IsAccepted raw_len pkt)

refused-IsSafe :
    (raw_len : ℕ) (pkt : Packet) (rx : List ℕ)
    → length rx ≡ 512
    → IsSafe raw_len (done (false, pkt, rx))
refused-IsSafe raw_len pkt rx e = record {
  answer = false;
  pkt = pkt;
  rx_buf = rx;
  returns = refl;
  same_length = e;
  outcome = inl refl;
}

read_tag-IsSafe :
    (raw_len : ℕ) (pkt : Packet) (rx p : List ℕ)
    → length rx ≡ 512
    → 16 ≤ length p
    → IsAccepted raw_len pkt
    → IsSafe raw_len (read_tag pkt rx p)
unfolding read_tag
read_tag-IsSafe raw_len pkt rx p e h a = record {
  answer = true;
  pkt = record pkt { auth_tag = take 16 p };
  rx_buf = rx;
  returns = rw (leb-true 16 (length p) h);
  same_length = e;
  outcome = inr (refl, record { small = a.small; whole = a.whole; owner = a.owner });
}

copy-IsSafe :
    (raw_len len : ℕ) (pkt : Packet) (rx p : List ℕ)
    → length rx ≡ 512
    → 0 < len
    → len ≤ 512
    → 49 + len ≤ raw_len
    → len + 16 ≤ length p
    → IsSafe raw_len (
        split_at len p >>= λ (body, q). overwrite body rx >>= λ rx'.
        read_tag (record pkt { payload = rx_static; payload_len = len }) rx' q)
copy-IsSafe raw_len len pkt rx p e pos small whole h =
    let taken : length (take len p) ≡ len = omega (arith, length-take len p) in
    rw (leb-true len (length p) (omega arith)) (
      rw (overwrite-append (take len p) rx (omega (arith, taken))) (
        read_tag-IsSafe raw_len _ _ (drop len p)
          (omega (
            arith,
            taken,
            length-append (take len p) (drop (length (take len p)) rx),
            length-drop (length (take len p)) rx,
          ))
          (omega (arith, length-drop len p))
          (record { small = small; whole = whole; owner = ground arith })))

read_body-IsSafe :
    (raw_len len : ℕ) (pkt : Packet) (rx p : List ℕ)
    → length rx ≡ 512
    → raw_len ≤ length p + 33
    → u16 (33 + len + 16) ≤ raw_len
    → 49 ≤ raw_len
    → IsSafe raw_len (read_body rx pkt len p)
unfolding read_body
read_body-IsSafe raw_len len pkt rx p e whole expected min = elim (Bool-cases (ltb 0 len)) [
  | inl some_body ↦ elim (Bool-cases (ltb 512 len)) [
    | inl large ↦ rw (some_body, large) (refused-IsSafe raw_len pkt rx e)
    | inr small ↦
        rw (some_body, small)
          (copy-IsSafe raw_len len pkt rx p e (ground arith) (ground arith) (ground arith)
            (ground arith))
  ]
  | inr no_body ↦ rw no_body (
      read_tag-IsSafe raw_len (record pkt { payload = null; payload_len = len }) rx p e
        (omega arith) (record { small = ground arith; whole = ground arith; owner = ground arith }))
]

header-IsSafe :
    (raw_len : ℕ) (raw rx : List ℕ) (pkt : Packet)
    → length rx ≡ 512
    → raw_len ≤ length raw
    → 49 ≤ raw_len
    → IsSafe raw_len (
        read_header raw >>= λ (h, p).
        let pkt' = record pkt { header = h } in
        if ltb raw_len (u16 (33 + h.payload_len + 16))
        then done (false, pkt', rx)
        else read_body rx pkt' h.payload_len p)
header-IsSafe raw_len raw rx pkt e fits min =
    let r = read_header-Reads raw (omega arith) in
    let len = r.value.payload_len in
    rw r.returns (elim (Bool-cases (ltb raw_len (u16 (33 + len + 16)))) [
      | inl short ↦ rw short (refused-IsSafe raw_len _ rx e)
      | inr enough ↦
          rw enough
            (read_body-IsSafe raw_len len _ rx r.rest e (omega (arith, r.moved)) (ground arith) min)
    ])

validate-returns :
    (raw : List ℕ) (raw_len : ℕ)
    → raw_len ≤ length raw
    → (valid : Bool) × (validate_header raw raw_len ≡ done valid)
unfolding validate_header
validate-returns (m0 ∷ m1 ∷ ver ∷ rest) raw_len h = elim (Bool-cases (ltb raw_len 49)) [
  | inl short ↦ (false, rw short)
  | inr enough ↦ (not (not (m0 == magic_0) || not (m1 == magic_1)) && ver == version_5, rw enough)
]
validate-returns (m0 ∷ m1 ∷ []) raw_len h = (false, ground arith)
validate-returns (m0 ∷ []) raw_len h = (false, ground arith)
validate-returns [] raw_len h = (false, ground arith)

validate-min : (raw : List ℕ) (raw_len : ℕ) → validate_header raw raw_len ≡ done true → 49 ≤ raw_len
unfolding validate_header
validate-min raw raw_len h = elim (Bool-cases (ltb raw_len 49)) [
  | inl short ↦ absurd (done_false (rw short at h))
  | inr enough ↦ ground arith
]
  where
    done_false : done false ≡ done true → ⊥
    done_false e = cc

-- Whatever bytes arrive, parsing at most as many as there are ends with no access outside the
-- input, the packet or the 512 bytes of the static buffer, which keeps its length. An accepted
-- packet has a payload of at most 512 bytes, all of it within the input, and its payload pointer
-- is the static buffer, or NULL where the payload is empty.
pub parse-IsSafe :
    (rx raw : List ℕ) (raw_len : ℕ) (pkt_out : Packet)
    → length rx ≡ 512
    → raw_len ≤ length raw
    → IsSafe raw_len (parse rx raw raw_len pkt_out)
unfolding parse
parse-IsSafe rx raw raw_len pkt_out e fits =
    let (valid, v) = validate-returns raw raw_len fits in by_answer valid v
  where
    by_answer :
        (valid : Bool)
        → validate_header raw raw_len ≡ done valid
        → IsSafe raw_len (parse rx raw raw_len pkt_out)
    by_answer true v =
        rw v (header-IsSafe raw_len raw rx pkt_out e fits (validate-min raw raw_len v))
    by_answer false v = rw v (refused-IsSafe raw_len pkt_out rx e)

-- `ykp_packet_free_payload` never frees what is not on the heap, whatever the packet's payload
-- pointer is, and leaves the pointer NULL and the rest as it was.
pub free_payload_safe : (pkt : Packet) → free_payload pkt ≡ done (record pkt { payload = null })
free_payload_safe pkt = for_pointer pkt.payload
  where
    for_pointer :
        (p : Payload)
        → free_payload (record pkt { payload = p }) ≡ done (record pkt { payload = null })
    for_pointer null = unfold free_payload in refl
    for_pointer (heap bytes) = unfold free_payload in refl
    for_pointer rx_static = unfold free_payload in refl
