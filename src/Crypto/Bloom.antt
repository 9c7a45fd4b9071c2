-- ===== src/Crypto/Bloom.antt =====
-- The bloom filter of growing tiers: src/astreum/crypto/bloom_filter. The digest of blake3 with a
-- length is a parameter. A tier is a bytearray, a list of numbers below 256.
pub mod Bits
pub mod Present
pub mod Tiers
mod Tests
use lib_py.Base.{
  ℕ, zero, suc, ◌+◌, ◌-◌, ◌*◌, ◌/◌, ◌%◌, ◌^◌, Bool, true, false, ◌&&◌, ◌||◌, Option, none, some,
  List, [], ◌∷◌, ◌++◌, map, length, get_elem?, get_or, set, take, drop, replicate, range_from, leb,
  ◌==◌, if◌then◌else◌,
}
use lib_py.Base.Bytes.{Bytes, from_bytes_big}

pub record BloomFilter : Type 0 where
  pub count : ℕ
  pub tiers : List Bytes
  pub start_hash : Option Bytes

-- `BloomFilter()`.
abbrev pub new_filter : BloomFilter
new_filter = record { count = 0; tiers = []; start_hash = none }

abbrev pub bits_per_element : ℕ
bits_per_element = 16

-- `K` and `SLICE`.
abbrev pub position_count : ℕ
position_count = 11

abbrev pub slice : ℕ
slice = 8

-- `b | (1 << i)` and `(b >> i) & 1`, from the lowest bit.
pub set_bit : ℕ → ℕ → ℕ
set_bit b zero = b / 2 * 2 + 1
set_bit b (suc i) = b % 2 + 2 * set_bit (b / 2) i

pub test_bit : ℕ → ℕ → Bool
test_bit b zero = b % 2 == 1
test_bit b (suc i) = test_bit (b / 2) i

-- `_bloom_positions`.
pub bloom_positions : Bytes → ℕ → List ℕ
bloom_positions digest bits =
    map (λ i. from_bytes_big (take slice (drop (slice * i) digest)) % bits)
      (range_from 0 position_count)

-- The search of `_ensure_tier` for the tier of the next element: the capacities are the powers of 2.
-- A fuel of one more than the count is enough, since the sum grows in each round.
pub find_tier : ℕ → ℕ → ℕ → ℕ → ℕ
find_tier zero cum tier_idx count = tier_idx
find_tier (suc f) cum tier_idx count =
    let more = find_tier f (cum + 2 ^ tier_idx) (tier_idx + 1) count in
    if leb (cum + 2 ^ tier_idx) count then more else tier_idx

pub new_tier : ℕ → Bytes
new_tier new_idx = replicate ((2 ^ new_idx * bits_per_element + 7) / 8) 0

-- The second loop of `_ensure_tier`, for a number of missing tiers.
pub add_tiers : ℕ → List Bytes → List Bytes
add_tiers zero tiers = tiers
add_tiers (suc missing) tiers = add_tiers missing (tiers ++ new_tier (length tiers) ∷ [])

-- `_ensure_tier`: the index and the tiers.
pub tier_index : BloomFilter → ℕ
tier_index bf = find_tier (suc bf.count) 0 0 bf.count

pub ensure_tier : BloomFilter → List Bytes
ensure_tier bf = add_tiers (suc (tier_index bf) - length bf.tiers) bf.tiers

-- `tier[pos // 8] |= (1 << (pos % 8))`, and its test.
pub set_position : Bytes → ℕ → Bytes
set_position tier pos = set tier (pos / 8) (set_bit (get_or tier (pos / 8) 0) (pos % 8))

pub set_positions : List ℕ → Bytes → Bytes
set_positions [] tier = tier
set_positions (pos ∷ rest) tier = set_positions rest (set_position tier pos)

pub has_position : Bytes → ℕ → Bool
has_position tier pos = test_bit (get_or tier (pos / 8) 0) (pos % 8)

pub has_positions : List ℕ → Bytes → Bool
has_positions [] tier = true
has_positions (pos ∷ rest) tier = has_position tier pos && has_positions rest tier

module _ (blake3 : ℕ → Bytes → Bytes) where
  pub bloom_digest : Bytes → Bytes
  bloom_digest element = blake3 (slice * position_count) element

  -- The positions of an element in a tier.
  pub positions_in : Bytes → Bytes → List ℕ
  positions_in element tier = bloom_positions (bloom_digest element) (length tier * 8)

  -- `bf.tiers[tier_idx]` is there: `_ensure_tier` has made it.
  pub bloom_insert : Bytes → BloomFilter → BloomFilter
  bloom_insert element bf =
      let tiers = ensure_tier bf in
      elim (get_elem? tiers (tier_index bf)) [
        | none ↦ bf
        | some tier ↦ record bf {
          count = bf.count + 1;
          tiers = set tiers (tier_index bf) (set_positions (positions_in element tier) tier);
        }
      ]

  -- The loop of `bloom_test` over the tiers.
  pub test_tiers : Bytes → List Bytes → Bool
  test_tiers element [] = false
  test_tiers element (tier ∷ rest) =
      has_positions (positions_in element tier) tier || test_tiers element rest

  pub bloom_test : BloomFilter → Bytes → Bool
  bloom_test bf element = test_tiers element bf.tiers

  pub insert_all : List Bytes → BloomFilter → BloomFilter
  insert_all [] bf = bf
  insert_all (element ∷ rest) bf = insert_all rest (bloom_insert element bf)
