-- ===== src/Communication/MessagePow/Tests.antt =====
-- The nonce search under toy digests.
use lib_py.Base.{
  ℕ, ◌+◌, ◌≤◌, ◌<◌, ◌≡◌, refl, ◌⊎◌, max, some, [], ◌∷◌, arith, drop, replicate, if◌then◌else◌,
}
use lib_py.Base.Bits.{bit_length}
use lib_py.Base.Bytes.{Bytes, bytes_eq, to_bytes_big}
use lib_py.Communication.MessagePow.{
  leading_zero_bits, max_message_nonce, Found, nonce, exhausted, search_nonce,
  calculate_message_nonce,
}
use lib_py.Communication.MessagePow.Search.{
  zeros, calculate_message_nonce_first, calculate_message_nonce_total,
}

-- The byte 255 for the nonce 0 of a message of one byte, else the last byte of the nonce.
abbrev low_byte : Bytes → Bytes
low_byte m = if bytes_eq m (9 ∷ replicate 8 0) then 255 ∷ [] else drop 8 m

calculate_message_nonce_run : calculate_message_nonce low_byte 5 (9 ∷ []) 7 ≡ some (nonce 1)
unfolding calculate_message_nonce search_nonce leading_zero_bits bytes_eq to_bytes_big bit_length
calculate_message_nonce_run = refl

calculate_message_nonce_first_example :
    (1 ≤ max_message_nonce)
    × (max 1 7 ≤ zeros low_byte (9 ∷ []) 1)
    × ((1 ≤ 0) ⊎ (zeros low_byte (9 ∷ []) 0 < max 1 7))
calculate_message_nonce_first_example =
    calculate_message_nonce_first low_byte 5 (9 ∷ []) 7 1 0 calculate_message_nonce_run

calculate_message_nonce_total_example :
    (r : Found) × (calculate_message_nonce low_byte (max_message_nonce + 2) (9 ∷ []) 7 ≡ some r)
calculate_message_nonce_total_example =
    calculate_message_nonce_total low_byte (max_message_nonce + 2) (9 ∷ []) 7 (omega arith)

-- A digest without a leading zero bit.
abbrev all_ones : Bytes → Bytes
all_ones m = 255 ∷ []

no_zeros : (n : ℕ) → zeros all_ones (9 ∷ []) n ≡ 0
unfolding leading_zero_bits bit_length
no_zeros n = refl

only_exhausted :
    (r : Found)
    → calculate_message_nonce all_ones (max_message_nonce + 2) (9 ∷ []) 0 ≡ some r
    → calculate_message_nonce all_ones (max_message_nonce + 2) (9 ∷ []) 0 ≡ some exhausted
only_exhausted (nonce n) run =
    let found = calculate_message_nonce_first all_ones (max_message_nonce + 2) (9 ∷ []) 0 n 0 run in
    absurd (omega (arith, no_zeros n, found.1))
only_exhausted exhausted run = run

all_ones_run : calculate_message_nonce all_ones (max_message_nonce + 2) (9 ∷ []) 0 ≡ some exhausted
all_ones_run =
    let (r, run) =
      calculate_message_nonce_total all_ones (max_message_nonce + 2) (9 ∷ []) 0 (omega arith) in
    only_exhausted r run
