-- ===== src/Crypto/Merkle.antt =====
-- Merkle trees over 32-byte values: src/astreum/crypto/merkle.py. The hash function blake3 is not
-- part of the repository: its digest is a parameter. `none` is a ValueError.
pub mod Levels
mod Grow
mod Rounds
mod Lengths
pub mod Complete
pub mod Sound
mod Tests
use lib_py.Base.{
  ℕ, zero, suc, ◌+◌, ◌-◌, ◌/◌, ◌%◌, Bool, true, false, ◌&&◌, Option, none, some, List, [], ◌∷◌,
  ◌++◌, map, length, get_elem?, replicate, ltb, ◌==◌, if◌then◌else◌,
}
use lib_py.Base.Bytes.{Bytes, bytes_eq}

abbrev pub hash_len : ℕ
hash_len = 32

-- `ZERO32`.
abbrev pub zero32 : Bytes
zero32 = replicate 32 0

pub record MerkleTree : Type 0 where
  pub root : Bytes
  pub count : ℕ
  pub levels : Option (List (List Bytes))

-- The check of every value (or sibling) that its length is `HASH_LEN`.
unfoldable pub all_hashes : List Bytes → Bool
all_hashes [] = true
all_hashes (v ∷ vs) = length v == hash_len && all_hashes vs

-- `i ^ 1`.
pub flip_low : ℕ → ℕ
flip_low i = if i % 2 == 0 then i + 1 else i - 1

-- `level[i ^ 1]`, if the level has it.
pub sibling : List Bytes → ℕ → List Bytes
sibling level i = elim (get_elem? level (flip_low i)) [ none ↦ [] | some s ↦ s ∷ [] ]

-- The loop of `generate_merkle_tree_proof` over `levels[:-1]`.
pub siblings : List (List Bytes) → ℕ → List Bytes
siblings [] i = []
siblings (level ∷ []) i = []
siblings (level ∷ above ∷ rest) i = sibling level i ++ siblings (above ∷ rest) (i / 2)

pub generate_merkle_tree_proof : MerkleTree → ℕ → Option (List Bytes)
generate_merkle_tree_proof tree index = elim tree.levels [
  | none ↦ none
  | some levels ↦ if ltb index tree.count then some (siblings levels index) else none
]

-- `level[0]`; no level is empty.
pub first : List Bytes → Bytes
first [] = []
first (h ∷ _) = h

-- `level[0]` of the last level.
pub root_of : List (List Bytes) → Bytes
root_of [] = []
root_of (level ∷ []) = first level
root_of (level ∷ above ∷ rest) = root_of (above ∷ rest)

-- `used == len(proof) and r == merkle_tree.root`.
pub reaches : Bytes → Option (Bytes × List Bytes) → Bool
reaches root none = false
reaches root (some (r, [])) = bytes_eq r root
reaches root (some (r, s ∷ left)) = false

module _ (blake3 : Bytes → Bytes) where
  -- `_leaf` and `_node`.
  pub leaf : Bytes → Bytes
  leaf value = blake3 (0 ∷ value)

  pub node : Bytes → Bytes → Bytes
  node left right = blake3 (1 ∷ (left ++ right))

  -- The next level: pairs are joined, and a last single hash moves up as it is.
  pub pair_up : List Bytes → List Bytes
  pair_up [] = []
  pair_up (a ∷ []) = a ∷ []
  pair_up (a ∷ b ∷ rest) = node a b ∷ pair_up rest

  -- The loop of `create_merkle_tree`: a level and the levels above it. The fuel is the length of
  -- the level, and each level is shorter than the one below.
  pub grow : ℕ → List Bytes → List (List Bytes)
  grow zero level = level ∷ []
  grow (suc f) level =
      let more = level ∷ grow f (pair_up level) in if ltb 1 (length level) then more else level ∷ []

  pub create_merkle_tree : List Bytes → Option MerkleTree
  create_merkle_tree [] = some (record { root = zero32; count = 0; levels = some [] })
  create_merkle_tree (v ∷ vs) =
      let levels = grow (length (v ∷ vs)) (map leaf (v ∷ vs)) in
      if all_hashes (v ∷ vs)
      then some (record { root = root_of levels; count = length (v ∷ vs); levels = some levels })
      else none

  -- One round of the loop of `verify_merkle_tree_proof`: the next hash and the siblings left,
  -- or `none` if a sibling is missing (the code returns False).
  pub absorb : ℕ → ℕ → Bytes → List Bytes → Option (Bytes × List Bytes)
  absorb fn sn r [] = if fn % 2 == 1 then none else if ltb fn sn then none else some (r, [])
  absorb fn sn r (s ∷ proof) =
      if fn % 2 == 1
      then some (node s r, proof)
      else if ltb fn sn
      then some (node r s, proof)
      else some (r, s ∷ proof)

  -- The loop, on a fuel of `sn`, which is halved in each round.
  pub climb : ℕ → ℕ → ℕ → Bytes → List Bytes → Option (Bytes × List Bytes)
  climb zero fn zero r proof = some (r, proof)
  climb zero fn (suc sn) r proof = none
  climb (suc f) fn zero r proof = some (r, proof)
  climb (suc f) fn (suc sn) r proof = elim (absorb fn (suc sn) r proof) [
    | none ↦ none
    | some (r', proof') ↦ climb f (fn / 2) (suc sn / 2) r' proof'
  ]

  pub verify_merkle_tree_proof : MerkleTree → ℕ → Bytes → List Bytes → Bool
  verify_merkle_tree_proof tree index value proof =
      if ltb index tree.count && (length value == hash_len && all_hashes proof)
      then reaches tree.root (climb (tree.count - 1) index (tree.count - 1) (leaf value) proof)
      else false
