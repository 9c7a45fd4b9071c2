-- ===== src/Consensus/Difficulty/Rules.antt =====
-- The rules of the difficulties: bounds, and how they answer to time and to votes.
use lib_py.Base.{
  ℕ, ◌≤◌, ◌≡◌, ◌⊎◌, inl, inr, Option, none, some, ltb, if◌then◌else◌, Bool-cases, arith,
}
use lib_py.Base.Int.{ℤ, pos, ◌+ℤ◌, ◌-ℤ◌, ◌≤ℤ◌, ◌<ℤ◌, ltb_ℤ, leb_ℤ, max_ℤ, int_laws}
use lib_py.Base.Bits.{bit_length, bit_length_mono}
use lib_py.Base.Bytes.{Bytes, bytes_eq}
use lib_py.Consensus.Difficulty.{
  base_difficulty, adjust, calculate_block_difficulty, distance_delta, required_bits,
  next_storage_difficulty,
}

base_difficulty_min : (d : Option ℤ) → pos 1 ≤ℤ base_difficulty d
unfolding base_difficulty
base_difficulty_min none = omega arith
base_difficulty_min (some d) = grind int_laws

adjust_bounds :
    (base spacing target : ℤ)
    → pos 1 ≤ℤ base
    → (pos 1 ≤ℤ adjust base spacing target)
      × (base ≤ℤ adjust base spacing target +ℤ pos 1)
      × (adjust base spacing target ≤ℤ base +ℤ pos 1)
unfolding adjust
adjust_bounds base spacing target h = (grind int_laws, grind int_laws, grind int_laws)

-- The difficulty that a next block starts from: the previous one, or 1 where there is none or it is
-- below 1.
abbrev pub StartsFrom : Option ℤ → ℤ → Type 0
StartsFrom none v = v ≡ pos 1
StartsFrom (some d) v = ((pos 1 ≤ℤ d) × (v ≡ d)) ⊎ ((d <ℤ pos 1) × (v ≡ pos 1))

base_difficulty-StartsFrom :
    (d : Option ℤ) (v : ℤ) → StartsFrom d v → (base_difficulty d ≡ v) × (pos 1 ≤ℤ v)
unfolding base_difficulty
base_difficulty-StartsFrom none v h = (grind int_laws, grind int_laws)
base_difficulty-StartsFrom (some d) v (inl (low, same)) = (grind int_laws, grind int_laws)
base_difficulty-StartsFrom (some d) v (inr (low, same)) = (grind int_laws, grind int_laws)

adjust_cases :
    (v spacing target : ℤ)
    → pos 1 ≤ℤ v
    → (spacing ≤ℤ pos 1 → adjust v spacing target ≡ v +ℤ pos 1)
      × (pos 1 <ℤ spacing
          → target <ℤ spacing
          → ((v ≡ pos 1) × (adjust v spacing target ≡ pos 1))
            ⊎ ((pos 1 <ℤ v) × (adjust v spacing target +ℤ pos 1 ≡ v)))
      × (pos 1 <ℤ spacing → spacing ≤ℤ target → adjust v spacing target ≡ v)
unfolding adjust
adjust_cases v spacing target h = (
  λ soon. grind int_laws,
  λ apart late. elim (Bool-cases (leb_ℤ v (pos 1))) [
    | inl low ↦ inl (grind int_laws, grind int_laws)
    | inr high ↦ inr (grind int_laws, grind int_laws)
  ],
  λ apart fine. grind int_laws,
)

-- The difficulty of a block, by its distance in time from the previous block, where v is the previous
-- difficulty, or 1 if there is none or it is below 1: with a time stamp missing it is v; up to 1
-- second after the previous block, or before it, it is v + 1; later than 1 second and than the target
-- it is v - 1, or 1 if v is 1; and later than 1 second but not than the target it is v.
pub calculate_block_difficulty_cases :
    (previous current : Option ℤ) (p c v target : ℤ) (difficulty : Option ℤ)
    → StartsFrom difficulty v
    → let r = calculate_block_difficulty (some p) (some c) difficulty target in
      (calculate_block_difficulty none current difficulty target ≡ v)
      × (calculate_block_difficulty previous none difficulty target ≡ v)
      × (c ≤ℤ p +ℤ pos 1 → r ≡ v +ℤ pos 1)
      × (p +ℤ pos 1 <ℤ c
          → p +ℤ target <ℤ c
          → ((v ≡ pos 1) × (r ≡ pos 1)) ⊎ ((pos 1 <ℤ v) × (r +ℤ pos 1 ≡ v)))
      × (p +ℤ pos 1 <ℤ c → c ≤ℤ p +ℤ target → r ≡ v)
unfolding calculate_block_difficulty
calculate_block_difficulty_cases previous current p c v target difficulty start =
    let (base, low) = base_difficulty-StartsFrom difficulty v start in
    let (soon, late, fine) = adjust_cases v (max_ℤ (pos 0) (c -ℤ p)) target low in
    (
      base,
      without previous base,
      λ h. rw base (soon (grind int_laws)),
      λ h k. rw base (late (grind int_laws) (grind int_laws)),
      λ h k. rw base (fine (grind int_laws) (grind int_laws)),
    )
  where
    without :
        (previous : Option ℤ)
        → base_difficulty difficulty ≡ v
        → calculate_block_difficulty previous none difficulty target ≡ v
    without none base = base
    without (some p) base = base

adjust_antitone :
    (base s s' target : ℤ) → pos 1 ≤ℤ base → s ≤ℤ s' → adjust base s' target ≤ℤ adjust base s target
unfolding adjust
adjust_antitone base s s' target h le = grind int_laws

-- A later time stamp never gives a block a higher difficulty.
pub calculate_block_difficulty_antitone :
    (previous current later : ℤ) (difficulty : Option ℤ) (target : ℤ)
    → current ≤ℤ later
    → calculate_block_difficulty (some previous) (some later) difficulty target
      ≤ℤ calculate_block_difficulty (some previous) (some current) difficulty target
unfolding calculate_block_difficulty
calculate_block_difficulty_antitone previous current later difficulty target le =
    adjust_antitone (base_difficulty difficulty) (max_ℤ (pos 0) (current -ℤ previous))
      (max_ℤ (pos 0) (later -ℤ previous)) target (base_difficulty_min difficulty) (grind int_laws)

at_least_one_mono : (m n : ℕ) → m ≤ n → (if ltb 1 m then m else 1) ≤ (if ltb 1 n then n else 1)
at_least_one_mono m n h = ground arith

less_antitone :
    (s d : ℤ) (m n : ℕ) → m ≤ n → max_ℤ (pos 0) (s -ℤ pos n -ℤ d) ≤ℤ max_ℤ (pos 0) (s -ℤ pos m -ℤ d)
less_antitone s d m n h = grind int_laws

-- After more elapsed blocks a takeover of a storage record needs no more bits than before, and the
-- number of bits is not negative.
pub required_bits_antitone :
    (sender winner storage_id : Bytes) (elapsed later : ℕ) (storage_difficulty : ℤ)
    → elapsed ≤ later
    → (required_bits sender winner storage_id later storage_difficulty
        ≤ℤ required_bits sender winner storage_id elapsed storage_difficulty)
      × (pos 0 ≤ℤ required_bits sender winner storage_id later storage_difficulty)
unfolding required_bits
required_bits_antitone sender winner storage_id elapsed later storage_difficulty h =
    let bits : bit_length (if ltb 1 elapsed then elapsed else 1)
        ≤ bit_length (if ltb 1 later then later else 1) =
      bit_length_mono _ _ (at_least_one_mono elapsed later h) in
    elim (Bool-cases (bytes_eq sender winner)) [
      | inl same ↦ rw same (omega arith, omega arith)
      | inr other ↦ rw other (
        less_antitone storage_difficulty (distance_delta sender winner storage_id) _ _
            (omega (arith, bits)),
        ground arith,
      )
    ]

-- The storage difficulty is not negative, and from a parent's that is not it follows the sign of the
-- votes by one step: up, down (but not below 0), or not at all.
pub next_storage_difficulty_step :
    (parent votes : ℤ)
    → pos 0 ≤ℤ parent
    → let r = next_storage_difficulty parent votes in
      (pos 0 ≤ℤ r)
      × ((pos 0 <ℤ votes) × (r ≡ parent +ℤ pos 1)
          ⊎ (votes <ℤ pos 0) × (r ≡ max_ℤ (pos 0) (parent -ℤ pos 1))
          ⊎ (votes ≡ pos 0) × (r ≡ parent))
unfolding next_storage_difficulty
next_storage_difficulty_step parent votes h = (
  ground arith,
  elim (Bool-cases (ltb_ℤ (pos 0) votes)) [
    | inl up ↦ inl (grind int_laws, grind int_laws)
    | inr rest ↦ elim (Bool-cases (ltb_ℤ votes (pos 0))) [
      | inl down ↦ inr (inl (grind int_laws, grind int_laws))
      | inr even ↦ inr (inr (grind int_laws, grind int_laws))
    ]
  ],
)
