-- ===== src/Tlv/RoundTrip.antt =====
-- `ykp_tlv_find` finds in a built map what the builder put there.
use mathlib.Core.List.{append_assoc}
use iot_yk.Base.{
  ℕ, zero, suc, ◌+◌, ◌-◌, ◌*◌, ◌^◌, ◌≤◌, ◌<◌, ◌≡◌, inl, inr, refl, ◌∙◌, true, Option, none, some,
  List, [], ◌∷◌, ◌++◌, length, length-append, arith, ltb, ◌==◌, Bool-cases, lt→ltb, ==_iff,
  if◌then◌else◌,
}
use iot_yk.Base.Bytes.{Run, done, u16}
use iot_yk.Cbor.Encoding.{uint_bytes, head_short, head_long}
use iot_yk.Tlv.Find.{Tlv, answer, go_on, byte_at, turn_value, turn, find_loop}
use iot_yk.Tlv.At.{At, byte_at-At, At-tail, At-append}
use iot_yk.Tlv.Build.{Field, IsField, field_bytes, entry_bytes}
use iot_yk.Tlv.Skip.{field_Skips}

-- A map as the list of its entries.
abbrev pub Entries : Type 0
Entries = List (ℕ × Field)

abbrev pub AreEntries : Entries → Type 0
AreEntries [] = Unit {0}
AreEntries ((key, f) ∷ fs) = (key < 256) × IsField f × AreEntries fs

unfoldable pub entries_bytes : Entries → List ℕ
entries_bytes [] = []
entries_bytes ((key, f) ∷ fs) = entry_bytes key f ++ entries_bytes fs

-- The first entry under a key.
unfoldable pub field_of : Entries → ℕ → Option Field
field_of [] type = none
field_of ((key, f) ∷ fs) type = if key == type then some f else field_of fs type

-- The answer for an entry: its bytes, whatever follows them. For no entry, false.
abbrev pub Finds : ℕ → Option Field → Option (Run (Option Tlv)) → Type 0
Finds type none r = r ≡ some (done none)
Finds type (some f) r =
    (after : List ℕ) × (r
      ≡ some (
          done (
            some (record {
              type_id = type;
              length = length (field_bytes f);
              value = field_bytes f ++ after;
            }))))

pub uint_bytes-short : (key : ℕ) → key < 256 → length (uint_bytes key) ≤ 2
uint_bytes-short key h = elim (Bool-cases (ltb key 24)) [
  | inl a ↦ rw (head_short 0 key (ground arith)) (omega arith)
  | inr a ↦ rw (head_long 0 key (ground arith) h) (omega arith)
]

module _ (buf : List ℕ) (type : ℕ) where
  value_turn :
      (key i : ℕ) (f : Field) (rest : List ℕ)
      → IsField f
      → At buf i (field_bytes f ++ rest)
      → i + 9 + length (field_bytes f) < 2 ^ 16
      → turn_value buf type key i
        ≡ done (
            if key == type
            then answer (
                some (record {
                  type_id = key;
                  length = length (field_bytes f);
                  value = field_bytes f ++ rest;
                }))
            else go_on (i + length (field_bytes f)))
  unfolding turn_value
  value_turn key i f rest h at k =
      let s = field_Skips buf i f rest h at k in
      let len = length (field_bytes f) in
      let span : u16 (i + len + 2 ^ 16 - i) ≡ len = omega arith in
      rw s.reads (rw s.skips (rw (span, at)))

  short_turn :
      (key i : ℕ)
      → key < 24
      → byte_at buf i ≡ done key
      → i + 1 < 2 ^ 16
      → turn buf type true i ≡ turn_value buf type key (i + 1)
  unfolding turn
  short_turn key i h e k =
      let here : u16 (i + 1) ≡ i + 1 = omega arith in rw e (rw here (ground arith))

  long_turn :
      (key i : ℕ)
      → byte_at buf i ≡ done 24
      → byte_at buf (i + 1) ≡ done key
      → i + 2 < 2 ^ 16
      → turn buf type true i ≡ turn_value buf type key (i + 2)
  unfolding turn
  long_turn key i e e' k =
      let here : u16 (i + 1) ≡ i + 1 = omega arith in
      let there : u16 (i + 1 + 1) ≡ i + 2 = omega arith in rw e (rw here (rw e' (rw there)))

  entry_turn :
      (key i : ℕ) (f : Field) (rest : List ℕ)
      → key < 256
      → At buf i (entry_bytes key f ++ rest)
      → i + 11 + length (field_bytes f) < 2 ^ 16
      → turn buf type true i ≡ turn_value buf type key (i + length (uint_bytes key))
  entry_turn key i f rest h at k = elim (Bool-cases (ltb key 24)) [
    | inl a ↦
        let none_left : 0 * 32 + key ≡ key = omega arith in
        let e : uint_bytes key ≡ key ∷ [] = rw none_left at (head_short 0 key (ground arith)) in
        rw e (short_turn key i (ground arith) (byte_at-At buf i _ _ (rw e at at)) (omega arith))
    | inr a ↦
        let e = head_long 0 key (ground arith) h in
        let at' = rw e at at in
        rw e (
          long_turn key i (byte_at-At buf i _ _ at')
            (byte_at-At buf (i + 1) _ _ (At-tail buf i _ _ at')) (omega arith))
  ]

  -- A round of the loop at an entry: the answer, or the index behind the entry.
  entry_answer :
      (key i : ℕ) (f : Field) (rest : List ℕ)
      → key < 256
      → IsField f
      → At buf i (entry_bytes key f ++ rest)
      → i + 11 + length (field_bytes f) < 2 ^ 16
      → turn buf type true i
        ≡ done (
            if key == type
            then answer (
                some (record {
                  type_id = key;
                  length = length (field_bytes f);
                  value = field_bytes f ++ rest;
                }))
            else go_on (i + length (entry_bytes key f)))
  entry_answer key i f rest h v at k =
      let at' = At-append buf i (uint_bytes key) (field_bytes f ++ rest) (rw append_assoc at at) in
      let short : length (uint_bytes key) ≤ 2 = uint_bytes-short key h in
      let span : i + length (uint_bytes key) + length (field_bytes f)
          ≡ i + length (entry_bytes key f) =
        omega (arith, length-append (uint_bytes key) (field_bytes f)) in
      entry_turn key i f rest h at k
      ∙ rw (← span) (value_turn key (i + length (uint_bytes key)) f rest v at' (omega arith))

  break_turn :
      (i : ℕ) (rest : List ℕ) → At buf i (0xff ∷ rest) → turn buf type true i ≡ done (answer none)
  unfolding turn
  break_turn i rest at = rw (byte_at-At buf i 0xff rest at) refl

  pub find_loop-entries :
      (fuel buf_len i : ℕ) (fs : Entries) (rest : List ℕ)
      → AreEntries fs
      → At buf i (entries_bytes fs ++ 0xff ∷ rest)
      → i + length (entries_bytes fs) < buf_len
      → buf_len + 11 ≤ 2 ^ 16
      → length fs < fuel
      → Finds type (field_of fs type) (find_loop fuel buf buf_len type true i)
  unfolding find_loop entries_bytes field_of
  find_loop-entries zero buf_len i fs rest v at k l m = absurd (omega arith)
  find_loop-entries (suc fuel) buf_len i [] rest v at k l m =
      rw (lt→ltb i buf_len (omega arith)) (rw (break_turn i rest at) refl)
  find_loop-entries (suc fuel) buf_len i ((key, f) ∷ fs) rest v at k l m =
      let at' = rw append_assoc at at in
      let whole = length-append (entry_bytes key f) (entries_bytes fs) in
      let split = length-append (uint_bytes key) (field_bytes f) in
      rw (lt→ltb i buf_len (omega (arith, whole))) (
        rw (entry_answer key i f _ v.0 v.1 at' (omega (arith, whole, split)))
          (elim (Bool-cases (key == type)) [
            | inl hit ↦ rw hit (entries_bytes fs ++ 0xff ∷ rest, rw ((==_iff key type).0 hit) refl)
            | inr miss ↦ rw miss (
                find_loop-entries fuel buf_len (i + length (entry_bytes key f)) fs rest v.2
                  (At-append buf i (entry_bytes key f) _ at') (omega (arith, whole)) l
                  (omega arith))
          ]))
