-- ===== src/Base/Bytes.antt =====
-- Byte sequences: what a C array holds, and reads and copies that stay within it.
use Prim.Native.Nat.{ℕ, zero, suc, ◌≤◌, ◌^◌, ◌%◌, ◌+◌}
use mathlib.Core.Path.{◌≡◌, refl, ap}
use mathlib.Core.List.{List, [], ◌∷◌, ◌++◌}
use native.Mathlib.Omega.{arith}
use iot_yk.Base.Tests.{leb, if◌then◌else◌}
use iot_yk.Base.Lists.{length, length-append, take, drop, replicate}

-- A run of C code that may step outside an array or free what is not on the heap.
pub data Run {ℓ} (A : Type ℓ) : Type ℓ where
  done : A → Run A
  fault : Run A

infixl 5 ◌>>=◌ ◌>>◌
abbrev pub ◌>>=◌ {ℓ κ} : {A : Type ℓ} {B : Type κ} → Run A → (A → Run B) → Run B
done a >>= f = f a
fault >>= f = fault

abbrev pub ◌>>◌ {ℓ} : {B : Type ℓ} → Run (Unit {0}) → Run B → Run B
m >> k = m >>= λ _. k

abbrev pub u8 : ℕ → ℕ
u8 n = n % 2 ^ 8

abbrev pub u16 : ℕ → ℕ
u16 n = n % 2 ^ 16

abbrev pub u32 : ℕ → ℕ
u32 n = n % 2 ^ 32

abbrev pub u64 : ℕ → ℕ
u64 n = n % 2 ^ 64

module _ {ℓ} {A : Type ℓ} where
  -- `*p++`
  abbrev pub next : List A → Run (A × List A)
  next [] = fault
  next (x ∷ xs) = done (x, xs)

  -- `memcpy` from `p`, and `p` moved past what was read.
  abbrev pub split_at : ℕ → List A → Run (List A × List A)
  split_at n xs = if leb n (length xs) then done (take n xs, drop n xs) else fault

  -- `memcpy` of `xs` to the start of an array.
  abbrev pub overwrite : List A → List A → Run (List A)
  overwrite xs arr =
      if leb (length xs) (length arr) then done (xs ++ drop (length xs) arr) else fault

  -- `memcpy` of `xs` to the place `i` of an array.
  abbrev pub write_at : ℕ → List A → List A → Run (List A)
  write_at i xs arr =
      if leb (i + length xs) (length arr)
      then done (take i arr ++ (xs ++ drop (i + length xs) arr))
      else fault

  pub take-append : (xs ys : List A) → take (length xs) (xs ++ ys) ≡ xs
  take-append [] ys = refl
  take-append (x ∷ xs) ys = ap (◌∷◌ x) (take-append xs ys)

  pub drop-append : (xs ys : List A) → drop (length xs) (xs ++ ys) ≡ ys
  drop-append [] ys = refl
  drop-append (x ∷ xs) ys = drop-append xs ys

  pub take_all : (n : ℕ) (xs : List A) → length xs ≡ n → take n xs ≡ xs
  take_all zero [] e = refl
  take_all zero (x ∷ xs) e = absurd (omega arith)
  take_all (suc n) [] e = refl
  take_all (suc n) (x ∷ xs) e = ap (◌∷◌ x) (take_all n xs (omega arith))

  pub split_at-append :
      (n : ℕ) (xs ys : List A) → length xs ≡ n → split_at n (xs ++ ys) ≡ done (xs, ys)
  split_at-append n xs ys e =
      rw (← e) (ground (arith, length-append xs ys, take-append xs ys, drop-append xs ys))

  pub overwrite-append :
      (xs arr : List A)
      → length xs ≤ length arr
      → overwrite xs arr ≡ done (xs ++ drop (length xs) arr)
  overwrite-append xs arr h = ground arith

-- `strncpy` of a C string, given without its end, into a field of `n` bytes: cut, or padded by zeros.
unfoldable pub strncpy : ℕ → List ℕ → List ℕ
strncpy n str = take n (str ++ replicate n 0)
