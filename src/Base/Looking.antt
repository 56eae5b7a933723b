-- ===== src/Base/Looking.antt =====
-- Runs of C code that look into a TLV map, where a lookup may not come to an end.
use mathlib.Core.Path.{◌≡◌, refl}
use mathlib.Core.Bool.{Bool, true, false}
use mathlib.Core.Option.{Option, none, some}
use iot_yk.Base.Tests.{if◌then◌else◌}
use iot_yk.Base.Bytes.{Run, done, fault, ◌>>=◌}

-- A run of code that looks into a map: `none` is a lookup that does not end.
abbrev pub Looking {ℓ} : Type ℓ → Type ℓ
Looking A = Option (Run A)

infixl 5 ◌>>=?◌
abbrev pub ◌>>=?◌ {ℓ κ} : {A : Type ℓ} {B : Type κ} → Looking A → (A → Looking B) → Looking B
none >>=? f = none
some fault >>=? f = some fault
some (done a) >>=? f = f a

-- What a run that comes to an end ends with.
abbrev pub Ensures {ℓ} : {A : Type ℓ} → (A → Type 0) → Looking A → Type 0
Ensures P none = Unit
Ensures P (some fault) = Unit
Ensures P (some (done a)) = P a

module _ {ℓ κ} {A : Type ℓ} {B : Type κ} (Q : B → Type 0) where
  pub Ensures-then :
      (P : A → Type 0) (m : Looking A) (f : A → Looking B)
      → Ensures P m
      → ((a : A) → P a → Ensures Q (f a))
      → Ensures Q (m >>=? f)
  Ensures-then P none f h k = tt
  Ensures-then P (some fault) f h k = tt
  Ensures-then P (some (done a)) f h k = k a h

  pub Ensures-any :
      (m : Looking A) (f : A → Looking B) → ((a : A) → Ensures Q (f a)) → Ensures Q (m >>=? f)
  Ensures-any none f k = tt
  Ensures-any (some fault) f k = tt
  Ensures-any (some (done a)) f k = k a

  pub Ensures-run :
      (P : A → Type 0) (m : Run A) (g : A → B)
      → Ensures P (some m)
      → ((a : A) → P a → Q (g a))
      → Ensures Q (some (m >>= λ a. done (g a)))
  Ensures-run P fault g h k = tt
  Ensures-run P (done a) g h k = k a h

  pub Ensures-map :
      (m : Run A) (g : A → B) → ((a : A) → Q (g a)) → Ensures Q (some (m >>= λ a. done (g a)))
  Ensures-map fault g k = tt
  Ensures-map (done a) g k = k a

pub Ensures-if {ℓ} :
    {A : Type ℓ} (Q : A → Type 0) (b : Bool) (x y : Looking A)
    → Ensures Q x
    → Ensures Q y
    → Ensures Q (if b then x else y)
Ensures-if Q true x y h k = h
Ensures-if Q false x y h k = k

pub Ensures-run_if {ℓ} :
    {A : Type ℓ} (Q : A → Type 0) (b : Bool) (x y : Run A)
    → Ensures Q (some x)
    → Ensures Q (some y)
    → Ensures Q (some (if b then x else y))
Ensures-run_if Q true x y h k = h
Ensures-run_if Q false x y h k = k

pub Ensures-weaken {ℓ} :
    {A : Type ℓ} (P Q : A → Type 0) (m : Looking A)
    → ((a : A) → P a → Q a)
    → Ensures P m
    → Ensures Q m
Ensures-weaken P Q none k h = tt
Ensures-weaken P Q (some fault) k h = tt
Ensures-weaken P Q (some (done a)) k h = k a h

pub Ensures-both {ℓ} :
    {A : Type ℓ} (P Q : A → Type 0) (m : Looking A)
    → Ensures P m
    → Ensures Q m
    → Ensures (λ a. P a × Q a) m
Ensures-both P Q none h k = tt
Ensures-both P Q (some fault) h k = tt
Ensures-both P Q (some (done a)) h k = (h, k)

-- A run that ends without a fault, and what it ends with.
abbrev pub Ends {ℓ} : {A : Type ℓ} → (A → Type 0) → Run A → Type 0
Ends P fault = ⊥
Ends P (done a) = P a

pub Ends-if {ℓ} :
    {A : Type ℓ} (P : A → Type 0) (b : Bool) (x y : Run A)
    → (b ≡ true → Ends P x)
    → (b ≡ false → Ends P y)
    → Ends P (if b then x else y)
Ends-if P true x y h k = h refl
Ends-if P false x y h k = k refl

pub Ends-weaken {ℓ} :
    {A : Type ℓ} (P Q : A → Type 0) (m : Run A) → ((a : A) → P a → Q a) → Ends P m → Ends Q m
Ends-weaken P Q fault k h = h
Ends-weaken P Q (done a) k h = k a h

pub Ends-both {ℓ} :
    {A : Type ℓ} (P Q : A → Type 0) (m : Run A) → Ends P m → Ends Q m → Ends (λ a. P a × Q a) m
Ends-both P Q fault h k = h
Ends-both P Q (done a) h k = (h, k)

pub Ends-then {ℓ κ} :
    {A : Type ℓ} {B : Type κ} (P : A → Type 0) (Q : B → Type 0) (m : Run A) (f : A → Run B)
    → Ends P m
    → ((a : A) → P a → Ends Q (f a))
    → Ends Q (m >>= f)
Ends-then P Q fault f h k = absurd h
Ends-then P Q (done a) f h k = k a h
