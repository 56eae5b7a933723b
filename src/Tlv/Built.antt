-- ===== src/Tlv/Built.antt =====
-- A whole map: what the builder of ykp_packet.c closes, `ykp_tlv_find` reads.
use mathlib.Core.List.{append_assoc, append-nil}
use iot_yk.Base.{
  ℕ, suc, ◌+◌, ◌^◌, ◌≤◌, ◌<◌, ◌≡◌, refl, ap, ◌∙◌, sym, List, [], ◌∷◌, ◌++◌, length, length-append,
  length-set, set, drop, take-append-drop, arith, lt→ltb, Bool-cases, ltb, inl, inr, ltb-false,
}
use iot_yk.Cbor.Content.{take-set}
use iot_yk.Cbor.Encoding.{uint_bytes, head_short, head_long}
use iot_yk.Tlv.{Builder, builder_init, builder_len}
use iot_yk.Tlv.Find.{find}
use iot_yk.Tlv.At.{byte_at-At, At-tail}
use iot_yk.Tlv.Build.{field_bytes, entry_bytes, add_field, IsBuilder, written, add_field-Grows}
use iot_yk.Tlv.RoundTrip.{Entries, AreEntries, entries_bytes, field_of, Finds, find_loop-entries}

-- The calls that put a map's entries, in order; every answer is ignored.
unfoldable pub add_fields : Builder → Entries → Builder
add_fields b [] = b
add_fields b ((key, f) ∷ fs) = add_fields (add_field b key f).1 fs

-- A map from its opening to its break.
unfoldable pub build : List ℕ → ℕ → Entries → ℕ × Builder
build buf size fs = builder_len (add_fields (builder_init buf size) fs)

uint_bytes-nonempty : (key : ℕ) → key < 256 → 0 < length (uint_bytes key)
uint_bytes-nonempty key h = elim (Bool-cases (ltb key 24)) [
  | inl a ↦ rw (head_short 0 key (ground arith)) (omega arith)
  | inr a ↦ rw (head_long 0 key (ground arith) h) (omega arith)
]

pub length-entries_bytes : (fs : Entries) → AreEntries fs → length fs ≤ length (entries_bytes fs)
unfolding entries_bytes
length-entries_bytes [] v = omega arith
length-entries_bytes ((key, f) ∷ fs) v = omega (
  arith,
  length-entries_bytes fs v.2,
  uint_bytes-nonempty key v.0,
  length-append (uint_bytes key) (field_bytes f),
  length-append (entry_bytes key f) (entries_bytes fs),
)

-- A builder whose content has grown by `more`.
pub record Holds (b : Builder) (more : List ℕ) (b' : Builder) : Type 0 where
  pub valid : IsBuilder b'
  pub adds : written b' ≡ written b ++ more
  pub len_adds : b'.len ≡ b.len + length more
  pub same_cap : b'.cap ≡ b.cap

pub add_fields-Holds :
    (b : Builder) (fs : Entries)
    → IsBuilder b
    → AreEntries fs
    → b.len + length (entries_bytes fs) ≤ b.cap
    → Holds b (entries_bytes fs) (add_fields b fs)
unfolding add_fields entries_bytes
add_fields-Holds b [] v e room = record {
  valid = v;
  adds = sym (append-nil (written b));
  len_adds = omega arith;
  same_cap = refl;
}
add_fields-Holds b ((key, f) ∷ fs) v e room =
    let whole = length-append (entry_bytes key f) (entries_bytes fs) in
    let g = add_field-Grows b key v e.0 f e.1 (omega (arith, whole)) in
    let h =
      add_fields-Holds (add_field b key f).1 fs g.valid e.2
        (omega (arith, whole, g.len_adds, g.same_cap)) in
    record {
      valid = h.valid;
      adds = h.adds ∙ rw (g.adds, append_assoc);
      len_adds = omega (arith, whole, h.len_adds, g.len_adds);
      same_cap = h.same_cap ∙ g.same_cap;
    }

pub init_written :
    (buf : List ℕ) (size : ℕ) → 0 < length buf → written (builder_init buf size) ≡ 0xbf ∷ []
unfolding builder_init
init_written buf size h = take-set buf 0 0xbf h

pub init_len :
    (buf : List ℕ) (size : ℕ)
    → ((builder_init buf size).len ≡ 1) × ((builder_init buf size).cap ≡ size)
unfolding builder_init
init_len buf size = (refl, refl)

pub builder_init-IsBuilder :
    (buf : List ℕ) (size : ℕ)
    → 0 < size
    → size ≤ length buf
    → size < 2 ^ 16
    → IsBuilder (builder_init buf size)
unfolding builder_init
builder_init-IsBuilder buf size h room narrow = record {
  cursor = omega arith;
  room = omega (arith, length-set buf 0 0xbf);
  narrow = narrow;
}

-- What the closed buffer holds.
pub closed :
    (b : Builder)
    → IsBuilder b
    → b.len < b.cap
    → (builder_len b).1.buf ≡ written b ++ 0xff ∷ drop (suc b.len) (set b.buf b.len 0xff)
unfolding builder_len
closed b v h = rw (lt→ltb b.len b.cap h) (
    sym (take-append-drop (suc b.len) (set b.buf b.len 0xff))
    ∙ rw (take-set b.buf b.len 0xff (omega (arith, v.room)), append_assoc) refl)

pub closed_len : (b : Builder) → IsBuilder b → b.len < b.cap → (builder_len b).0 ≡ b.len + 1
unfolding builder_len
closed_len b v h = rw (lt→ltb b.len b.cap h) (omega (arith, v.narrow))

-- Looking from the start of a map.
pub find_entries :
    (fuel buf_len type : ℕ) (buf : List ℕ) (fs : Entries) (rest : List ℕ)
    → AreEntries fs
    → buf ≡ 0xbf ∷ entries_bytes fs ++ 0xff ∷ rest
    → 1 + length (entries_bytes fs) < buf_len
    → buf_len + 11 ≤ 2 ^ 16
    → length fs < fuel
    → Finds type (field_of fs type) (find fuel buf buf_len type)
unfolding find
find_entries fuel buf_len type buf fs rest v e k l m = rw (ltb-false buf_len 2 (omega arith)) (
    rw (byte_at-At buf 0 0xbf _ e)
      (find_loop-entries buf type fuel buf_len 1 fs rest v (At-tail buf 0 0xbf _ e) k l m))

-- A list of entries whose keys and numbers fit their C types and whose strings and byte strings have
-- at most 255 bytes each. In the map that the builder makes of it, closed by `ykp_tlv_builder_len`,
-- where the buffer has room for the entries and the break and is at least 11 bytes short of 64 KB,
-- `ykp_tlv_find` run for as many rounds as the map has bytes ends without a fault: it answers the
-- encoded bytes of the first entry under the key, and false for a key of no entry.
pub find-build :
    (buf : List ℕ) (size : ℕ) (fs : Entries) (type : ℕ)
    → AreEntries fs
    → 1 + length (entries_bytes fs) < size
    → size ≤ length buf
    → size + 11 ≤ 2 ^ 16
    → Finds type
        (field_of fs type)
        (find (build buf size fs).0 (build buf size fs).1.buf (build buf size fs).0 type)
unfolding build
find-build buf size fs type v room fits narrow =
    let b0 = builder_init buf size in
    let start = init_len buf size in
    let h =
      add_fields-Holds b0 fs (builder_init-IsBuilder buf size (omega arith) fits (omega arith)) v
        (omega (arith, start)) in
    let b = add_fields b0 fs in
    let short : b.len < b.cap = omega (arith, start, h.len_adds, h.same_cap) in
    let held : written b ≡ 0xbf ∷ entries_bytes fs =
      h.adds ∙ ap (◌++ entries_bytes fs) (init_written buf size (omega arith)) in
    let n = closed_len b h.valid short in
    find_entries (builder_len b).0 (builder_len b).0 type (builder_len b).1.buf fs
      (drop (suc b.len) (set b.buf b.len 0xff)) v (closed b h.valid short ∙ rw held refl)
      (omega (arith, n, start, h.len_adds)) (omega (arith, n, start, h.len_adds))
      (omega (arith, n, start, h.len_adds, length-entries_bytes fs v))
