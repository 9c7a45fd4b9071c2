-- ===== src/Crypto/Merkle/Sound.antt =====
-- A proof that the verification accepts shows that the value stands at its index, unless it shows
-- a collision of the hash function.
use lib_py.Base.{
  ℕ, zero, suc, ◌-◌, ◌/◌, ◌≤◌, ◌<◌, ◌≡◌, refl, sym, ◌∙◌, ◌⊎◌, inl, inr, Option, none, some, List,
  [], ◌∷◌, arith, map, length, length-map, get_elem?, get_elem?-lt, get_elem?-map, lt-length, true,
  Option-cases,
}
use lib_py.Base.Bytes.{Bytes, bytes_eq→eq}
use lib_py.Crypto.Merkle.{
  MerkleTree, all_hashes, hash_len, leaf, pair_up, first, grow, root_of, create_merkle_tree, absorb,
  climb, reaches, verify_merkle_tree_proof,
}
use lib_py.Crypto.Merkle.Levels.{length-pair_up}
use lib_py.Crypto.Merkle.Grow.{root_of-grow, grow-many, grow_one}
use lib_py.Crypto.Merkle.Lengths.{all_hashes-map-leaf, all_hashes-pair_up}
use lib_py.Crypto.Merkle.Rounds.{Collision, leaf-inj, absorb_lengths, absorb_sound}
use lib_py.Crypto.Merkle.Complete.{create_merkle_tree-built, climb_zero, climb-suc}

module _ (blake3 : Bytes → Bytes) (digest_length : (m : Bytes) → length (blake3 m) ≡ hash_len) where
  climb_missing :
      (g i sn : ℕ) (r : Bytes) (proof : List Bytes) {b : Bytes}
      → absorb blake3 i (suc sn) r proof ≡ none
      → climb blake3 (suc g) i (suc sn) r proof ≡ some (b, [])
      → ⊥
  unfolding climb
  climb_missing g i sn r proof e run = cc (rw (e, climb) at run)

  -- A run of the loop that ends at the root began at the hash of its position.
  climb_sound :
      (f g i sn : ℕ) (level : List Bytes) (x r : Bytes) (proof : List Bytes)
      → length level ≡ suc sn
      → sn ≤ f
      → all_hashes level ≡ true
      → length r ≡ hash_len
      → all_hashes proof ≡ true
      → get_elem? level i ≡ some x
      → climb blake3 g i sn r proof ≡ some (root_of (grow blake3 f level), [])
      → (x ≡ r) ⊎ Collision blake3
  climb_sound f g i sn [] x r proof n hf al nr ap at run = cc
  climb_sound f g zero sn (a ∷ []) x r proof n hf al nr ap at run =
      let z : sn ≡ 0 = omega arith in
      let root : root_of (grow blake3 f (a ∷ [])) ≡ a =
        rw (grow_one blake3 f a) (unfold root_of first in refl) in
      inl (cc (z, root, climb_zero blake3 g 0 r proof))
  climb_sound f g (suc i) sn (a ∷ []) x r proof n hf al nr ap at run = cc
  climb_sound f g i zero (a ∷ b ∷ l) x r proof n hf al nr ap at run = absurd (omega arith)
  climb_sound zero g i (suc sn) (a ∷ b ∷ l) x r proof n hf al nr ap at run = elim hf [ ]
  climb_sound (suc f) zero i (suc sn) (a ∷ b ∷ l) x r proof n hf al nr ap at run =
      absurd (unfold climb in cc)
  climb_sound (suc f) (suc g) i (suc sn) (a ∷ b ∷ l) x r proof n hf al nr ap at run =
      let level : List Bytes = a ∷ b ∷ l in
      let next : List Bytes = pair_up blake3 level in
      let count : length next ≡ suc (suc sn / 2) = omega (arith, length-pair_up blake3 level) in
      elim (Option-cases (absorb blake3 i (suc sn) r proof)) [
        | inl missing ↦ absurd (climb_missing g i sn r proof missing run)
        | inr ((r', left), e) ↦
            let (long, left_long) =
              absorb_lengths blake3 digest_length i (suc sn) r proof nr ap e in
            let (x', up) = get_elem?-lt next (i / 2) (omega (arith, lt-length level i at)) in
            let higher : climb blake3 g (i / 2) (suc sn / 2) r' left
                ≡ some (root_of (grow blake3 f next), []) =
              sym (climb-suc blake3 g i sn r r' proof left e)
              ∙ run
              ∙ rw (grow-many blake3 f a b l, root_of-grow blake3 f level next) refl in
            elim (climb_sound f g (i / 2) (suc sn / 2) next x' r' left count (omega arith)
              (all_hashes-pair_up blake3 digest_length level al) long left_long up higher) [
                | inl same ↦
                    absorb_sound blake3 level i (suc sn) x r proof r' left n al nr ap at e
                      (cc (same, up))
                | inr c ↦ inr c
              ]
      ]

reaches-true :
    (root : Bytes) (o : Option (Bytes × List Bytes)) → reaches root o ≡ true → o ≡ some (root, [])
unfolding reaches
reaches-true root none h = cc
reaches-true root (some (r, [])) h = cc (bytes_eq→eq r root h)
reaches-true root (some (r, s ∷ left)) h = cc

-- What an accepted proof has passed.
verify_accepts :
    (blake3 : Bytes → Bytes) (tree : MerkleTree) (i : ℕ) (value : Bytes) (proof : List Bytes)
    → verify_merkle_tree_proof blake3 tree i value proof ≡ true
    → (i < tree.count)
      × (length value ≡ hash_len)
      × (all_hashes proof ≡ true)
      × (climb blake3 (tree.count - 1) i (tree.count - 1) (leaf blake3 value) proof
          ≡ some (tree.root, []))
unfolding verify_merkle_tree_proof
verify_accepts blake3 tree i value proof h =
    let run = climb blake3 (tree.count - 1) i (tree.count - 1) (leaf blake3 value) proof in
    ground (arith, reaches-true tree.root run)

create_merkle_tree-empty :
    (blake3 : Bytes → Bytes) (tree : MerkleTree)
    → create_merkle_tree blake3 [] ≡ some tree
    → tree.count ≡ 0
unfolding create_merkle_tree
create_merkle_tree-empty blake3 tree built = ground arith

-- If `verify_merkle_tree_proof` accepts a proof of a value at an index of a tree that
-- `create_merkle_tree` built, then the tree has that value at that index, or two different
-- messages have one digest; every digest of the hash has 32 bytes.
pub verify_sound :
    (blake3 : Bytes → Bytes)
    → ((m : Bytes) → length (blake3 m) ≡ hash_len)
    → (values : List Bytes) (i : ℕ) (value : Bytes) (proof : List Bytes) (tree : MerkleTree)
    → create_merkle_tree blake3 values ≡ some tree
    → verify_merkle_tree_proof blake3 tree i value proof ≡ true
    → (get_elem? values i ≡ some value) ⊎ Collision blake3
verify_sound blake3 digest_length [] i value proof tree built h = absurd (
    omega (
      arith,
      create_merkle_tree-empty blake3 tree built,
      (verify_accepts blake3 tree i value proof h).0,
    ))
verify_sound blake3 digest_length (v ∷ vs) i value proof tree built h =
    let (good, same) = create_merkle_tree-built blake3 v vs tree built in
    let (inside, long, proof_long, run) = verify_accepts blake3 tree i value proof h in
    let level : List Bytes = map (leaf blake3) (v ∷ vs) in
    let count : tree.count ≡ suc (length vs) = rw same refl in
    let top : tree.root ≡ root_of (grow blake3 (length (v ∷ vs)) level) = rw same refl in
    let less : tree.count - 1 ≡ length vs = omega arith in
    let (w, at) = get_elem?-lt (v ∷ vs) i (omega arith) in
    elim (climb_sound blake3 digest_length (length (v ∷ vs)) (tree.count - 1) i (length vs) level
      (leaf blake3 w) (leaf blake3 value) proof (length-map (v ∷ vs) (leaf blake3)) (omega arith)
      (all_hashes-map-leaf blake3 digest_length (v ∷ vs)) (unfold leaf in digest_length (0 ∷ value))
      proof_long (get_elem?-map (leaf blake3) (v ∷ vs) i at) (cc)) [
        | inl same_leaf ↦ elim (leaf-inj blake3 w value same_leaf) [
          | inl e ↦ inl (cc)
          | inr c ↦ inr c
        ]
        | inr c ↦ inr c
      ]
