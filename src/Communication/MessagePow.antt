-- ===== src/Communication/MessagePow.antt =====
-- The proof of work of a message: src/astreum/communication/message_pow.py and difficulty.py.
-- The digest blake3 is a parameter. A search runs on fuel; `none` is that the fuel ran out.
pub mod Zeros
pub mod Search
mod Tests
use lib_py.Base.{
  ℕ, zero, suc, ◌+◌, ◌-◌, ◌*◌, ◌/◌, ◌%◌, ◌^◌, max, min, Option, none, some, List, [], ◌∷◌, ◌++◌,
  ltb, leb, ◌==◌, if◌then◌else◌,
}
use lib_py.Base.Bits.{bit_length}
use lib_py.Base.Bytes.{Bytes, to_bytes_big}

abbrev pub nonce_size : ℕ
nonce_size = 8

-- `MAX_MESSAGE_NONCE`.
abbrev pub max_message_nonce : ℕ
max_message_nonce = 2 ^ 64 - 1

-- `_leading_zero_bits`, and `count_leading_zero_bits` of consensus/block/utils/bits.py.
unfoldable pub leading_zero_bits : Bytes → ℕ
leading_zero_bits [] = 0
leading_zero_bits (byte ∷ buf) =
    if byte == 0 then 8 + leading_zero_bits buf else 8 - bit_length byte

pub data Found : Type 0 where
  nonce : ℕ → Found
  exhausted : Found

module _ (blake3 : Bytes → Bytes) where
  -- The loop of `calculate_message_nonce` from a nonce on; `exhausted` is the ValueError.
  pub search_nonce : ℕ → Bytes → ℕ → ℕ → Option Found
  search_nonce zero message target n = none
  search_nonce (suc f) message target n =
      let rest = search_nonce f message target (n + 1) in
      if ltb max_message_nonce n
      then some exhausted
      else if leb target (leading_zero_bits (blake3 (message ++ to_bytes_big nonce_size n)))
      then some (nonce n)
      else rest

  pub calculate_message_nonce : ℕ → Bytes → ℕ → Option Found
  calculate_message_nonce fuel message difficulty = search_nonce fuel message (max 1 difficulty) 0

-- The value that `message_difficulty` picks from the size and the limit of the queue. It compares the
-- float quotient size / limit with two-digit decimals; for limits below 2 ^ 50 that is the
-- comparison of the exact fractions that is made here.
unfoldable pub pressure_value : ℕ → ℕ → ℕ
pressure_value size limit =
    if ltb (100 * size) (70 * limit)
    then 1
    else if ltb (100 * size) (75 * limit)
    then 3
    else if ltb (100 * size) (80 * limit)
    then 5
    else if ltb (100 * size) (85 * limit)
    then 8
    else if ltb (100 * size) (90 * limit)
    then 12
    else if ltb (100 * size) (93 * limit)
    then 16
    else if ltb (100 * size) (95 * limit)
    then 19
    else if ltb (100 * size) (97 * limit)
    then 22
    else if ltb (100 * size) (98 * limit)
    then 24
    else 26

unfoldable pub message_difficulty : ℕ → ℕ → ℕ
message_difficulty size limit =
    if limit == 0 then 1 else max 1 (min 255 (pressure_value size limit))
