-- ===== src/Cbor/Content.antt =====
-- What the encoder has written so far, and that each encoding appends its bytes to it.
use mathlib.Core.List.{append_assoc, append-nil}
use iot_yk.Base.{
  ℕ, zero, suc, ◌+◌, ◌≤◌, ◌<◌, ◌≡◌, refl, sym, ap, ◌∙◌, List, [], ◌∷◌, ◌++◌, length, length-append,
  set, length-set, take, arith, lt→ltb, leb-true,
}
use iot_yk.Cbor.{Encoder, write_byte, copy_at, write_bytes}

-- The cursor lies in the part of the buffer that the encoder was given.
pub record IsEncoder (enc : Encoder) : Type 0 where
  pub cursor : enc.len ≤ enc.size
  pub room : enc.size ≤ length enc.buf

abbrev pub content : Encoder → List ℕ
content enc = take enc.len enc.buf

-- `enc'` is `enc` with `bytes` behind what it held, and nothing else changed up to the size.
pub record Appends (enc : Encoder) (bytes : List ℕ) (enc' : Encoder) : Type 0 where
  pub valid : IsEncoder enc'
  pub adds : content enc' ≡ content enc ++ bytes
  pub len_adds : enc'.len ≡ enc.len + length bytes
  pub same_size : enc'.size ≡ enc.size
  pub same_flag : enc'.overflow ≡ enc.overflow

pub take-set :
    (buf : List ℕ) (i b : ℕ) → i < length buf → take (suc i) (set buf i b) ≡ take i buf ++ b ∷ []
take-set [] i b h = elim h [ ]
take-set (x ∷ buf) zero b h = refl
take-set (x ∷ buf) (suc i) b h = ap (◌∷◌ x) (take-set buf i b (omega arith))

pub write_byte-Appends :
    (enc : Encoder) (b : ℕ)
    → IsEncoder enc
    → enc.len < enc.size
    → Appends enc (b ∷ []) (write_byte enc b)
unfolding write_byte
write_byte-Appends enc b v h = rw (lt→ltb enc.len enc.size h) (record {
  valid = record {
    cursor = omega arith;
    room = omega (arith, v.room, length-set enc.buf enc.len b);
  };
  adds =
      let e : enc.len + 1 ≡ suc enc.len = omega arith in
      rw e (take-set enc.buf enc.len b (omega (arith, v.room)));
  len_adds = refl;
  same_size = refl;
  same_flag = refl;
})

-- Appending twice, and nothing.
pub Appends-append :
    {enc mid enc' : Encoder} (xs ys : List ℕ)
    → Appends enc xs mid
    → Appends mid ys enc'
    → Appends enc (xs ++ ys) enc'
Appends-append xs ys a b = record {
  valid = b.valid;
  adds = b.adds ∙ rw (a.adds, append_assoc);
  len_adds = omega (arith, a.len_adds, b.len_adds, length-append xs ys);
  same_size = b.same_size ∙ a.same_size;
  same_flag = b.same_flag ∙ a.same_flag;
}

Appends-nil : (enc : Encoder) → IsEncoder enc → Appends enc [] enc
Appends-nil enc v = record {
  valid = v;
  adds = sym (append-nil (content enc));
  len_adds = omega arith;
  same_size = refl;
  same_flag = refl;
}

-- Bytes written one by one.
unfoldable pub write_all : Encoder → List ℕ → Encoder
write_all enc [] = enc
write_all enc (b ∷ bytes) = write_all (write_byte enc b) bytes

pub write_all-Appends :
    (enc : Encoder) (bytes : List ℕ)
    → IsEncoder enc
    → enc.len + length bytes ≤ enc.size
    → Appends enc bytes (write_all enc bytes)
unfolding write_all
write_all-Appends enc [] v h = Appends-nil enc v
write_all-Appends enc (b ∷ bytes) v h =
    let a = write_byte-Appends enc b v (omega arith) in
    Appends-append (b ∷ []) bytes a
      (write_all-Appends (write_byte enc b) bytes a.valid (omega (arith, a.len_adds, a.same_size)))

copy_at-write_all :
    (enc : Encoder) (bytes : List ℕ)
    → enc.len + length bytes ≤ enc.size
    → write_all enc bytes
      ≡ record enc { buf = copy_at enc.buf enc.len bytes; len = enc.len + length bytes }
unfolding write_all copy_at write_byte
copy_at-write_all enc [] h = ground arith
copy_at-write_all enc (b ∷ bytes) h = rw (lt→ltb enc.len enc.size (omega arith)) (
    ground (
      arith,
      copy_at-write_all (record enc { buf = set enc.buf enc.len b; len = enc.len + 1 }) bytes
          (omega arith),
    ))

pub write_bytes-write_all :
    (enc : Encoder) (bytes : List ℕ)
    → enc.len + length bytes ≤ enc.size
    → write_bytes enc bytes ≡ write_all enc bytes
unfolding write_bytes
write_bytes-write_all enc bytes h = rw (leb-true _ _ h) (sym (copy_at-write_all enc bytes h))

pub write_all-append :
    (enc : Encoder) (xs ys : List ℕ) → write_all enc (xs ++ ys) ≡ write_all (write_all enc xs) ys
unfolding write_all
write_all-append enc [] ys = refl
write_all-append enc (x ∷ xs) ys = write_all-append (write_byte enc x) xs ys
