-- ===== src/Crypto/Merkle/Tests.antt =====
-- A tree of three values under a toy digest, and the theorems about it.
use lib_py.Base.{
  ℕ, ◌≡◌, refl, ◌⊎◌, true, some, List, [], ◌∷◌, ◌++◌, arith, length, length-append, length-take,
  length-replicate, get_elem?, take, replicate,
}
use lib_py.Base.Bytes.{Bytes, bytes_eq}
use lib_py.Crypto.Merkle.{
  MerkleTree, hash_len, all_hashes, flip_low, sibling, siblings, generate_merkle_tree_proof, leaf,
  node, pair_up, first, grow, root_of, create_merkle_tree, absorb, climb, reaches,
  verify_merkle_tree_proof,
}
use lib_py.Crypto.Merkle.Rounds.{Collision}
use lib_py.Crypto.Merkle.Complete.{verify-generate}
use lib_py.Crypto.Merkle.Sound.{verify_sound}

-- The first 32 bytes of a message, filled up with zeros.
abbrev toy_digest : Bytes → Bytes
toy_digest m = take 32 (m ++ replicate 32 0)

length-toy_digest : (m : Bytes) → length (toy_digest m) ≡ hash_len
length-toy_digest m = omega (
  arith,
  length-take 32 (m ++ replicate 32 0),
  length-append m (replicate 32 0),
  length-replicate {A = ℕ} 32 0,
)

abbrev values : List Bytes
values = replicate 32 1 ∷ replicate 32 2 ∷ replicate 32 3 ∷ []

abbrev top_pair : Bytes
top_pair = toy_digest (1 ∷ (toy_digest (0 ∷ replicate 32 1) ++ toy_digest (0 ∷ replicate 32 2)))

abbrev tree : MerkleTree
tree = record {
  root = toy_digest (1 ∷ (top_pair ++ toy_digest (0 ∷ replicate 32 3)));
  count = 3;
  levels = some (
      (toy_digest (0 ∷ replicate 32 1)
        ∷ toy_digest (0 ∷ replicate 32 2)
        ∷ toy_digest (0 ∷ replicate 32 3)
        ∷ [])
      ∷ (top_pair ∷ toy_digest (0 ∷ replicate 32 3) ∷ [])
      ∷ (toy_digest (1 ∷ (top_pair ++ toy_digest (0 ∷ replicate 32 3))) ∷ [])
      ∷ []);
}

create_merkle_tree_run : create_merkle_tree toy_digest values ≡ some tree
unfolding create_merkle_tree grow pair_up root_of first leaf node all_hashes
create_merkle_tree_run = refl

-- The last value stands alone on the first level, so its proof has one sibling.
generate_run : generate_merkle_tree_proof tree 2 ≡ some (top_pair ∷ [])
unfolding generate_merkle_tree_proof siblings sibling flip_low
generate_run = refl

verify_run : verify_merkle_tree_proof toy_digest tree 2 (replicate 32 3) (top_pair ∷ []) ≡ true
unfolding verify_merkle_tree_proof climb absorb reaches bytes_eq all_hashes leaf node
verify_run = refl

verify-generate_example :
    (proof : List Bytes) × (generate_merkle_tree_proof tree 2 ≡ some proof)
    × (verify_merkle_tree_proof toy_digest tree 2 (replicate 32 3) proof ≡ true)
verify-generate_example =
    verify-generate toy_digest length-toy_digest values 2 (replicate 32 3) tree
      create_merkle_tree_run refl

verify_sound_example : (get_elem? values 2 ≡ some (replicate 32 3)) ⊎ Collision toy_digest
verify_sound_example =
    verify_sound toy_digest length-toy_digest values 2 (replicate 32 3) (top_pair ∷ []) tree
      create_merkle_tree_run verify_run
