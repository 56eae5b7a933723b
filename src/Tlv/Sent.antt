-- ===== src/Tlv/Sent.antt =====
-- A field from the builder to the reader: ykp_packet.c on both sides of a packet.
use iot_yk.Base.{
  ℕ, ◌+◌, ◌^◌, ◌≤◌, ◌<◌, ◌≡◌, some, List, [], ◌∷◌, ◌++◌, length, ◌==◌, Bool-cases, inl, inr, arith,
}
use iot_yk.Base.Bytes.{done}
use iot_yk.Tlv.Find.{Tlv, find}
use iot_yk.Tlv.Build.{Field, IsField, field_bytes}
use iot_yk.Tlv.RoundTrip.{Entries, AreEntries, entries_bytes, field_of}
use iot_yk.Tlv.ReadBack.{Reads, entry-Reads}
use iot_yk.Tlv.Built.{build, find-build}

field_of-IsField :
    (fs : Entries) (type : ℕ) (f : Field) → AreEntries fs → field_of fs type ≡ some f → IsField f
unfolding field_of
field_of-IsField [] type f v e = ground arith
field_of-IsField ((key, g) ∷ fs) type f v e = elim (Bool-cases (key == type)) [
  | inl hit ↦ let taken = rw hit at e in let same : g ≡ f = cc in rw (← same) v.1
  | inr miss ↦ field_of-IsField fs type f v.2 (rw miss at e)
]

-- A list of entries whose keys and numbers fit their C types and whose strings and byte strings have
-- at most 255 bytes each. In the map that the builder makes of it, where the buffer has room for the
-- entries and the break and is at least 11 bytes short of 64 KB, the finder gives the first entry
-- under a key, and the reader of its type gives the 8-, 16- or 32-bit number that was put there; an entry of
-- another type holds the bytes of its CBOR form.
pub find-build-Reads :
    (buf : List ℕ) (size : ℕ) (fs : Entries) (type : ℕ) (f : Field)
    → AreEntries fs
    → 1 + length (entries_bytes fs) < size
    → size ≤ length buf
    → size + 11 ≤ 2 ^ 16
    → field_of fs type ≡ some f
    → let r = build buf size fs in
      (t : Tlv) × ((find r.0 r.1.buf r.0 type ≡ some (done (some t))) × Reads f t)
find-build-Reads buf size fs type f v room fits narrow e =
    let (after, found) = rw e at (find-build buf size fs type v room fits narrow) in
    (
      record { type_id = type; length = length (field_bytes f); value = field_bytes f ++ after },
      (found, entry-Reads type f after (field_of-IsField fs type f v e)),
    )
