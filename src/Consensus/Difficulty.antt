-- ===== src/Consensus/Difficulty.antt =====
-- The difficulty of blocks and of storage proofs: src/astreum/consensus/block/difficulty.py and
-- src/astreum/consensus/transaction/storage/difficulty.py.
pub mod Rules
pub mod Prefix
mod Tests
use lib_py.Base.{
  ℕ, zero, suc, ◌+◌, ◌-◌, ◌*◌, ◌/◌, ◌%◌, ◌^◌, Bool, true, false, Option, none, some, List, [], ◌∷◌,
  length, ltb, ◌==◌, if◌then◌else◌,
}
use lib_py.Base.Int.{ℤ, pos, negsuc, ◌+ℤ◌, ◌-ℤ◌, ltb_ℤ, leb_ℤ, eqb_ℤ, max_ℤ}
use lib_py.Base.Bits.{bit_length}
use lib_py.Base.Bytes.{Bytes, bytes_eq, from_bytes_big}
use lib_py.Crypto.Merkle.{zero32}

-- `max(1, previous_difficulty or 1)`.
pub base_difficulty : Option ℤ → ℤ
base_difficulty none = max_ℤ (pos 1) (pos 1)
base_difficulty (some d) = max_ℤ (pos 1) (if eqb_ℤ d (pos 0) then pos 1 else d)

-- The change of the base by the spacing.
pub adjust : ℤ → ℤ → ℤ → ℤ
adjust base spacing target_spacing =
    if leb_ℤ spacing (pos 1)
    then base +ℤ pos 1
    else if ltb_ℤ target_spacing spacing
    then max_ℤ (pos 1) (base -ℤ pos 1)
    else base

pub calculate_block_difficulty : Option ℤ → Option ℤ → Option ℤ → ℤ → ℤ
calculate_block_difficulty none current difficulty target = base_difficulty difficulty
calculate_block_difficulty (some previous) none difficulty target = base_difficulty difficulty
calculate_block_difficulty (some previous) (some current) difficulty target =
    adjust (base_difficulty difficulty) (max_ℤ (pos 0) (current -ℤ previous)) target

-- `x ^ y` on bytes, from the lowest bit.
unfoldable pub xor_bits : ℕ → ℕ → ℕ → ℕ
xor_bits zero x y = 0
xor_bits (suc bits) x y = (x % 2 + y % 2) % 2 + 2 * xor_bits bits (x / 2) (y / 2)

-- `bytes(x ^ y for x, y in zip(a, b))`.
pub xor_bytes : Bytes → Bytes → Bytes
xor_bytes [] b = []
xor_bytes (x ∷ a) [] = []
xor_bytes (x ∷ a) (y ∷ b) = xor_bits 8 x y ∷ xor_bytes a b

pub shared_prefix_bits : Bytes → Bytes → ℕ
shared_prefix_bits a b = length a * 8 - bit_length (from_bytes_big (xor_bytes a b))

pub distance_delta : Bytes → Bytes → Bytes → ℤ
distance_delta sender winner storage_id =
    if bytes_eq winner zero32
    then pos 0
    else pos (shared_prefix_bits sender storage_id) -ℤ pos (shared_prefix_bits winner storage_id)

-- The elapsed blocks are a difference of heights and not negative.
pub required_bits : Bytes → Bytes → Bytes → ℕ → ℤ → ℤ
required_bits sender winner storage_id elapsed storage_difficulty =
    if bytes_eq sender winner
    then pos 0
    else max_ℤ (pos 0) (
        storage_difficulty
        -ℤ pos (bit_length (if ltb 1 elapsed then elapsed else 1) - 1)
        -ℤ distance_delta sender winner storage_id)

pub takeover_position : ℕ → ℤ → ℕ
takeover_position elapsed (pos delta) = elapsed * 2 ^ delta
takeover_position elapsed (negsuc n) = elapsed / 2 ^ suc n

pub takeover_vote : ℕ → Option ℕ → ℤ
takeover_vote position none = pos 0
takeover_vote position (some fair) =
    if position == fair then pos 0 else if ltb position fair then pos 1 else negsuc 0

pub next_storage_difficulty : ℤ → ℤ → ℤ
next_storage_difficulty parent votes = max_ℤ (pos 0) (
    parent
    +ℤ (if ltb_ℤ (pos 0) votes then pos 1 else pos 0)
    -ℤ (if ltb_ℤ votes (pos 0) then pos 1 else pos 0))

-- `Route._matching_leading_bits` of src/astreum/communication/models/route.py: `from` is the byte
-- index, and `width` the length of the first key.
unfoldable pub matching_from : ℕ → ℕ → Bytes → Bytes → ℕ
matching_from width i (x ∷ a) (y ∷ b) =
    if xor_bits 8 x y == 0
    then matching_from width (i + 1) a b
    else i * 8 + (8 - bit_length (xor_bits 8 x y))
matching_from width i a b = width * 8

unfoldable pub matching_leading_bits : Bytes → Bytes → ℕ
matching_leading_bits a b = matching_from (length a) 0 a b
