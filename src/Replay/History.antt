-- ===== src/Replay/History.antt =====
-- What the replay window promises, said with the whole list of ids accepted so far.
use iot_yk.Base.{
  ℕ, ◌-◌, ◌<◌, ◌≡◌, refl, Bool, true, false, not, ◌&&◌, ◌||◌, List, [], ◌∷◌, ltb, ◌==◌,
  if◌then◌else◌, arith,
}
use Prim.Native.Nat.{max}

unfoldable pub highest : List ℕ → ℕ
highest [] = 0
highest (id ∷ hist) = max id (highest hist)

unfoldable pub contains : List ℕ → ℕ → Bool
contains [] id = false
contains (x ∷ hist) id = x == id || contains hist id

-- An id is fresh if it is not 0, not more than 63 below the highest, and was never accepted.
abbrev pub is_fresh : List ℕ → ℕ → Bool
is_fresh hist id = not (id == 0) && (ltb (highest hist - id) 64 && not (contains hist id))

unfoldable pub spec_run : List ℕ → List ℕ → List Bool
spec_run hist [] = []
spec_run hist (id ∷ ids) =
    is_fresh hist id ∷ spec_run (if is_fresh hist id then id ∷ hist else hist) ids

unfoldable pub spec_passed : List ℕ → List ℕ → List ℕ
spec_passed hist [] = []
spec_passed hist (id ∷ ids) =
    let later = spec_passed (id ∷ hist) ids in
    let rest = spec_passed hist ids in if is_fresh hist id then id ∷ later else rest

-- No id of the history is above the highest.
pub contains_above : (hist : List ℕ) (id : ℕ) → highest hist < id → contains hist id ≡ false
unfolding highest contains
contains_above [] id h = refl
contains_above (x ∷ hist) id h = ground (arith, contains_above hist id)

-- No two of the ids are the same.
abbrev pub Distinct : List ℕ → Type 0
Distinct [] = Unit {0}
Distinct (id ∷ ids) = (contains ids id ≡ false) × Distinct ids

-- What has been accepted is not accepted again.
spec_passed_new :
    (hist ids : List ℕ) (id : ℕ)
    → contains hist id ≡ true
    → contains (spec_passed hist ids) id ≡ false
unfolding spec_passed contains
spec_passed_new hist [] id h = refl
spec_passed_new hist (x ∷ ids) id h =
    ground (arith, spec_passed_new (x ∷ hist) ids id, spec_passed_new hist ids id h)

pub spec_passed-Distinct : (hist ids : List ℕ) → Distinct (spec_passed hist ids)
unfolding spec_passed contains
spec_passed-Distinct hist [] = tt
spec_passed-Distinct hist (x ∷ ids) = ground (
  arith,
  spec_passed_new (x ∷ hist) ids x,
  spec_passed-Distinct (x ∷ hist) ids,
  spec_passed-Distinct hist ids,
)
