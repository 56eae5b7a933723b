-- ===== src/Security/Iv.antt =====
-- The nonces of ykp_security.c.
use mathlib.Core.List.{map}
use iot_yk.Session.{Session, set_active}
use iot_yk.Session.Ids.{packet_ids, range, packet_ids-range}
use iot_yk.Base.{
  ℕ, zero, suc, length, ◌≢◌, ◌≤◌, ◌+◌, ◌<◌, ◌^◌, ◌≡◌, ap, ◌∙◌, sym, List, [], ◌∷◌, ◌++◌, replicate,
  arith,
}
use iot_yk.Base.Bytes.{Run, done}
use iot_yk.Wire.{write_u32_be, read_u32_be, read-write_u32_be}
use iot_yk.Security.{iv}

read_same :
    (v w : ℕ) (xs ys : List ℕ)
    → v < 2 ^ 32
    → w < 2 ^ 32
    → write_u32_be v ++ xs ≡ write_u32_be w ++ ys
    → (v ≡ w) × (xs ≡ ys)
read_same v w xs ys h k e =
    let same : ◌≡◌ {A = Run (ℕ × List ℕ)} (done (v, xs)) (done (w, ys)) =
      sym (read-write_u32_be v xs h) ∙ ap read_u32_be e ∙ read-write_u32_be w ys k in
    (cc, cc)

iv_injective :
    (key_ver a b : ℕ)
    → key_ver < 2 ^ 32
    → a < 2 ^ 32
    → b < 2 ^ 32
    → iv key_ver a ≡ iv key_ver b
    → a ≡ b
unfolding iv
iv_injective key_ver a b k ha hb e =
    let first = read_same key_ver key_ver _ _ k k e in
    (read_same a b (replicate 4 0) (replicate 4 0) ha hb first.1).0

-- None of the others is `x`; all of them differ from each other.
abbrev pub Differs : List ℕ → List (List ℕ) → Type 0
Differs x [] = Unit {0}
Differs x (y ∷ ys) = (x ≢ y) × Differs x ys

abbrev pub AllDiffer : List (List ℕ) → Type 0
AllDiffer [] = Unit {0}
AllDiffer (x ∷ xs) = Differs x xs × AllDiffer xs

range-Differs :
    (key_ver a first count : ℕ)
    → key_ver < 2 ^ 32
    → a < first
    → first + count ≤ 2 ^ 32
    → Differs (iv key_ver a) (map (iv key_ver) (range first count))
unfolding range
range-Differs key_ver a first zero k h l = tt
range-Differs key_ver a first (suc count) k h l = (
  (λ e. absurd (omega (arith, iv_injective key_ver a first k (omega arith) (omega arith) e))),
  range-Differs key_ver a (suc first) count k (omega arith) (omega arith),
)

range-AllDiffer :
    (key_ver first count : ℕ)
    → key_ver < 2 ^ 32
    → first + count ≤ 2 ^ 32
    → AllDiffer (map (iv key_ver) (range first count))
unfolding range
range-AllDiffer key_ver first zero k l = tt
range-AllDiffer key_ver first (suc count) k l = (
  range-Differs key_ver first (suc first) count k (omega arith) (omega arith),
  range-AllDiffer key_ver (suc first) count k (omega arith),
)

-- The packet ids that `ykp_session_next_packet_id` gives after an activation of the session, fewer
-- than 2 ^ 32 - 1 of them: the nonces that `ykp_security_encrypt` makes of them under one version of
-- the key all differ from each other.
pub nonces-AllDiffer :
    (s : Session) (key_ver time_us session_id : ℕ) (times : List ℕ)
    → key_ver < 2 ^ 32
    → length times + 1 < 2 ^ 32
    → AllDiffer (map (iv key_ver) (packet_ids (set_active time_us session_id s) times).0)
nonces-AllDiffer s key_ver time_us session_id times k h =
    rw (packet_ids-range s time_us session_id times h)
      (range-AllDiffer key_ver 2 (length times) k (omega arith))
