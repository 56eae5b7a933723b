-- ===== src/Tlv/Endless.antt =====
-- `ykp_tlv_find` where its 16-bit index wraps, and where a string claims more than there is.
use iot_yk.Base.{
  ℕ, zero, suc, ◌+◌, ◌≤◌, ◌<◌, ◌≡◌, ◌≢◌, refl, true, none, some, List, ◌∷◌, arith, ltb-false,
  lt→ltb,
}
use iot_yk.Base.Bytes.{done}
use iot_yk.Tlv.Find.{
  go_on, byte_at, u16_at, skip_string, skip_value, turn_value, turn, find_loop, find,
}

-- A text with a two-byte length of 65532: the index comes back to the key at 1.
turn_again :
    (k type : ℕ) (rest : List ℕ)
    → k < 24
    → k ≢ type
    → turn (0xbf ∷ k ∷ 0x79 ∷ 0xff ∷ 0xfc ∷ rest) type true 1 ≡ done (go_on 1)
unfolding turn turn_value byte_at skip_value skip_string u16_at
turn_again k type rest h n = ground arith

find_loop_again :
    (fuel k type buf_len : ℕ) (rest : List ℕ)
    → k < 24
    → k ≢ type
    → 2 ≤ buf_len
    → find_loop fuel (0xbf ∷ k ∷ 0x79 ∷ 0xff ∷ 0xfc ∷ rest) buf_len type true 1 ≡ none
unfolding find_loop
find_loop_again zero k type buf_len rest h n b = refl
find_loop_again (suc fuel) k type buf_len rest h n b =
    rw (lt→ltb 1 buf_len b)
      (rw (turn_again k type rest h n) (find_loop_again fuel k type buf_len rest h n b))

-- A map that begins with any other key below 24 and a text of two-byte length 0xfffc keeps
-- `ykp_tlv_find` in its loop for ever: no number of rounds gives an answer, whatever follows.
pub find_endless :
    (fuel k type buf_len : ℕ) (rest : List ℕ)
    → k < 24
    → k ≢ type
    → 2 ≤ buf_len
    → find fuel (0xbf ∷ k ∷ 0x79 ∷ 0xff ∷ 0xfc ∷ rest) buf_len type ≡ none
unfolding find byte_at
find_endless fuel k type buf_len rest h n b =
    rw (ltb-false buf_len 2 b) (find_loop_again fuel k type buf_len rest h n b)

-- The length of a byte string is taken as it is written, up to 255, whatever `buf_len` is: the entry
-- that is handed out may reach far behind the map.
pub find_unbounded :
    (fuel k n buf_len : ℕ) (rest : List ℕ)
    → k < 24
    → n < 256
    → 2 ≤ buf_len
    → find (suc fuel) (0xbf ∷ k ∷ 0x58 ∷ n ∷ rest) buf_len k
      ≡ some (done (some (record { type_id = k; length = n + 2; value = 0x58 ∷ n ∷ rest })))
unfolding find find_loop turn turn_value byte_at skip_value skip_string
find_unbounded fuel k n buf_len rest h l b = ground arith
