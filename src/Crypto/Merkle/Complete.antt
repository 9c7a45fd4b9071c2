-- ===== src/Crypto/Merkle/Complete.antt =====
-- A proof that the code generates is accepted by the code that verifies.
use lib_py.Base.{
  if-eq-some, lt-length, get_elem?-map, ℕ, zero, suc, ◌-◌, ◌/◌, ◌≤◌, ◌≡◌, refl, sym, some, List, [],
  ◌∷◌, arith, map, length, length-map, get_elem?, ltb, lt→ltb, true,
}
use lib_py.Base.Bytes.{Bytes, bytes_eq_self}
use lib_py.Crypto.Merkle.{
  MerkleTree, all_hashes, hash_len, siblings, generate_merkle_tree_proof, leaf, pair_up, first,
  grow, root_of, create_merkle_tree, absorb, climb, reaches, verify_merkle_tree_proof,
}
use lib_py.Crypto.Merkle.Grow.{siblings-grow, root_of-grow, grow-many, grow_one}
use lib_py.Crypto.Merkle.Lengths.{length-get_elem?, all_hashes-map-leaf, all_hashes-siblings}
use lib_py.Crypto.Merkle.Levels.{length-pair_up, absorb-sibling}

module _ (blake3 : Bytes → Bytes) where
  pub climb_zero : (g i : ℕ) (r : Bytes) (p : List Bytes) → climb blake3 g i 0 r p ≡ some (r, p)
  unfolding climb
  climb_zero zero i r p = refl
  climb_zero (suc g) i r p = refl

  pub climb-suc :
      (g i sn : ℕ) (r r' : Bytes) (p p' : List Bytes)
      → absorb blake3 i (suc sn) r p ≡ some (r', p')
      → climb blake3 (suc g) i (suc sn) r p ≡ climb blake3 g (i / 2) (suc sn / 2) r' p'
  unfolding climb
  climb-suc g i sn r r' p p' e = rw (e, climb)

  -- The siblings of a position lead from its hash to the root.
  pub climb-siblings :
      (f g i sn : ℕ) (level : List Bytes) (r : Bytes)
      → length level ≡ suc sn
      → sn ≤ f
      → sn ≤ g
      → get_elem? level i ≡ some r
      → climb blake3 g i sn r (siblings (grow blake3 f level) i)
        ≡ some (root_of (grow blake3 f level), [])
  climb-siblings f g i zero [] r n hf hg h = cc
  climb-siblings f g zero zero (a ∷ []) r n hf hg h =
      rw (grow_one blake3 f a, climb_zero) (unfold siblings root_of first in ground arith)
  climb-siblings f g (suc i) zero (a ∷ []) r n hf hg h = cc
  climb-siblings f g i zero (a ∷ b ∷ l) r n hf hg h = absurd (omega arith)
  climb-siblings zero g i (suc sn) level r n hf hg h = elim hf [ ]
  climb-siblings (suc f) zero i (suc sn) level r n hf hg h = elim hg [ ]
  climb-siblings (suc f) (suc g) i (suc sn) [] r n hf hg h = cc
  climb-siblings (suc f) (suc g) i (suc sn) (a ∷ []) r n hf hg h = absurd (omega arith)
  climb-siblings (suc f) (suc g) i (suc sn) (a ∷ b ∷ l) r n hf hg h =
      let next : List Bytes = pair_up blake3 (a ∷ b ∷ l) in
      let (r', down, up) =
        absorb-sibling blake3 (a ∷ b ∷ l) i (suc sn) r (siblings (grow blake3 f next) (i / 2)) n
          h in
      rw
        (
          grow-many blake3 f a b l,
          siblings-grow blake3 f i (a ∷ b ∷ l) next,
          root_of-grow blake3 f (a ∷ b ∷ l) next,
          climb-suc g i sn r r' _ _ down,
        )
        (climb-siblings f g (i / 2) (suc sn / 2) next r'
          (omega (arith, length-pair_up blake3 (a ∷ b ∷ l))) (omega arith) (omega arith) up)

-- What `create_merkle_tree` builds, if it does not raise.
abbrev tree_of : (Bytes → Bytes) → List Bytes → MerkleTree
tree_of blake3 vs =
    let levels = grow blake3 (length vs) (map (leaf blake3) vs) in
    record { root = root_of levels; count = length vs; levels = some levels }

pub create_merkle_tree-built :
    (blake3 : Bytes → Bytes) (v : Bytes) (vs : List Bytes) (tree : MerkleTree)
    → create_merkle_tree blake3 (v ∷ vs) ≡ some tree
    → (all_hashes (v ∷ vs) ≡ true) × (tree ≡ tree_of blake3 (v ∷ vs))
unfolding create_merkle_tree
create_merkle_tree-built blake3 v vs tree built =
    let (good, same) = if-eq-some (all_hashes (v ∷ vs)) built in (good, sym same)

-- For a value of a tree, `generate_merkle_tree_proof` gives a proof that
-- `verify_merkle_tree_proof` accepts, if every digest of the hash has 32 bytes.
pub verify-generate :
    (blake3 : Bytes → Bytes)
    → ((m : Bytes) → length (blake3 m) ≡ hash_len)
    → (values : List Bytes) (i : ℕ) (value : Bytes) (tree : MerkleTree)
    → create_merkle_tree blake3 values ≡ some tree
    → get_elem? values i ≡ some value
    → (proof : List Bytes) × (generate_merkle_tree_proof tree i ≡ some proof)
      × (verify_merkle_tree_proof blake3 tree i value proof ≡ true)
verify-generate blake3 digest_length [] i value tree built at = cc
verify-generate blake3 digest_length (v ∷ vs) i value tree built at =
    let (good, same) = create_merkle_tree-built blake3 v vs tree built in
    let level : List Bytes = map (leaf blake3) (v ∷ vs) in
    let levels : List (List Bytes) = grow blake3 (length (v ∷ vs)) level in
    let inside : ltb i (length (v ∷ vs)) ≡ true =
      lt→ltb i (length (v ∷ vs)) (lt-length (v ∷ vs) i at) in
    let long : length value ≡ hash_len = length-get_elem? (v ∷ vs) i good at in
    let siblings_long : all_hashes (siblings levels i) ≡ true =
      all_hashes-siblings blake3 digest_length (length (v ∷ vs)) i level
        (all_hashes-map-leaf blake3 digest_length (v ∷ vs)) in
    let count : suc (length vs) - 1 ≡ length vs = omega arith in
    let climbs : climb blake3 (length vs) i (length vs) (leaf blake3 value) (siblings levels i)
        ≡ some (root_of levels, []) =
      climb-siblings blake3 (length (v ∷ vs)) (length vs) i (length vs) level (leaf blake3 value)
        (length-map (v ∷ vs) (leaf blake3)) (omega arith) (omega arith)
        (get_elem?-map (leaf blake3) (v ∷ vs) i at) in
    rw same (
      siblings levels i,
      (unfold generate_merkle_tree_proof in rw inside refl),
      (unfold verify_merkle_tree_proof reaches in
          rw (inside, long, siblings_long, count, climbs, reaches)
            (bytes_eq_self (root_of levels))),
    )
