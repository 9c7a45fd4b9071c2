-- ===== src/Consensus/Difficulty/Tests.antt =====
-- Difficulties at concrete times, keys and votes.
use lib_py.Base.{◌≡◌, ◌⊎◌, inl, arith, refl, none, some, [], ◌∷◌}
use lib_py.Base.Int.{pos, ◌+ℤ◌, ◌-ℤ◌, ◌≤ℤ◌, ◌<ℤ◌}
use lib_py.Base.Bits.{bit_length}
use lib_py.Consensus.Difficulty.{
  base_difficulty, adjust, calculate_block_difficulty, shared_prefix_bits, matching_leading_bits,
  xor_bits, matching_from,
}
use lib_py.Consensus.Difficulty.Rules.{calculate_block_difficulty_cases}
use lib_py.Consensus.Difficulty.Prefix.{matching_leading_bits-shared_prefix_bits}

slow_block :
    calculate_block_difficulty (some (pos 100)) (some (pos 103)) (some (pos 5)) (pos 2) ≡ pos 4
unfolding calculate_block_difficulty base_difficulty adjust ◌-ℤ◌ ◌+ℤ◌
slow_block = refl

calculate_block_difficulty_cases_example :
    let r = calculate_block_difficulty (some (pos 100)) (some (pos 103)) (some (pos 5)) (pos 2) in
    (calculate_block_difficulty none none (some (pos 5)) (pos 2) ≡ pos 5)
    × (calculate_block_difficulty none none (some (pos 5)) (pos 2) ≡ pos 5)
    × (pos 103 ≤ℤ pos 100 +ℤ pos 1 → r ≡ pos 5 +ℤ pos 1)
    × (pos 100 +ℤ pos 1 <ℤ pos 103
        → pos 100 +ℤ pos 2 <ℤ pos 103
        → ((pos 5 ≡ pos 1) × (r ≡ pos 1)) ⊎ ((pos 1 <ℤ pos 5) × (r +ℤ pos 1 ≡ pos 5)))
    × (pos 100 +ℤ pos 1 <ℤ pos 103 → pos 103 ≤ℤ pos 100 +ℤ pos 2 → r ≡ pos 5)
calculate_block_difficulty_cases_example =
    calculate_block_difficulty_cases none none (pos 100) (pos 103) (pos 5) (pos 2) (some (pos 5))
      (inl (omega arith, refl))

prefix_run : matching_leading_bits (1 ∷ 200 ∷ []) (1 ∷ 209 ∷ []) ≡ 11
unfolding matching_leading_bits matching_from xor_bits bit_length
prefix_run = refl

matching_leading_bits-shared_prefix_bits_example :
    matching_leading_bits (1 ∷ 200 ∷ []) (1 ∷ 209 ∷ [])
    ≡ shared_prefix_bits (1 ∷ 200 ∷ []) (1 ∷ 209 ∷ [])
matching_leading_bits-shared_prefix_bits_example =
    matching_leading_bits-shared_prefix_bits (1 ∷ 200 ∷ []) (1 ∷ 209 ∷ []) refl
