-- ===== src/Crypto/Merkle/Lengths.antt =====
-- Every hash of a tree, and so every sibling of a proof, has 32 bytes, as the digests have.
use lib_py.Base.{
  ℕ, zero, suc, ◌/◌, ◌≡◌, refl, some, List, [], ◌∷◌, ◌++◌, arith, map, length, get_elem?, true,
  Option-cases, inl, inr,
}
use lib_py.Base.Bytes.{Bytes}
use lib_py.Crypto.Merkle.{
  all_hashes, hash_len, flip_low, sibling, siblings, leaf, node, pair_up, grow,
}
use lib_py.Crypto.Merkle.Grow.{siblings-grow, grow-many, grow_one}

pub all_hashes-append :
    (a b : List Bytes) → all_hashes a ≡ true → all_hashes b ≡ true → all_hashes (a ++ b) ≡ true
unfolding all_hashes
all_hashes-append [] b ha hb = hb
all_hashes-append (x ∷ a) b ha hb = ground (arith, all_hashes-append a b)

pub length-get_elem? :
    (l : List Bytes) (i : ℕ) {h : Bytes}
    → all_hashes l ≡ true
    → get_elem? l i ≡ some h
    → length h ≡ hash_len
unfolding all_hashes
length-get_elem? [] i a e = cc
length-get_elem? (x ∷ l) zero a e = ground arith
length-get_elem? (x ∷ l) (suc i) {h} a e = ground (arith, length-get_elem? l i {h = h})

all_hashes-sibling :
    (level : List Bytes) (i : ℕ) → all_hashes level ≡ true → all_hashes (sibling level i) ≡ true
unfolding sibling all_hashes
all_hashes-sibling level i a = elim (Option-cases (get_elem? level (flip_low i))) [
  | inl beyond ↦ rw (beyond, all_hashes) refl
  | inr (s, e) ↦ rw (e, all_hashes) (ground (arith, length-get_elem? level (flip_low i) a e))
]

module _ (blake3 : Bytes → Bytes) (digest_length : (m : Bytes) → length (blake3 m) ≡ hash_len) where
  pub all_hashes-map-leaf : (vs : List Bytes) → all_hashes (map (leaf blake3) vs) ≡ true
  unfolding all_hashes leaf
  all_hashes-map-leaf [] = refl
  all_hashes-map-leaf (v ∷ vs) = ground (arith, digest_length (0 ∷ v), all_hashes-map-leaf vs)

  pub all_hashes-pair_up :
      (l : List Bytes) → all_hashes l ≡ true → all_hashes (pair_up blake3 l) ≡ true
  unfolding all_hashes pair_up node
  all_hashes-pair_up [] h = refl
  all_hashes-pair_up (a ∷ []) h = h
  all_hashes-pair_up (a ∷ b ∷ l) h =
      ground (arith, digest_length (1 ∷ (a ++ b)), all_hashes-pair_up l)

  pub all_hashes-siblings :
      (f i : ℕ) (level : List Bytes)
      → all_hashes level ≡ true
      → all_hashes (siblings (grow blake3 f level) i) ≡ true
  all_hashes-siblings zero i level h = unfold grow siblings all_hashes in refl
  all_hashes-siblings (suc f) i [] h = unfold grow siblings all_hashes in refl
  all_hashes-siblings (suc f) i (a ∷ []) h =
      rw (grow_one blake3 (suc f) a) (unfold siblings all_hashes in refl)
  all_hashes-siblings (suc f) i (a ∷ b ∷ l) h =
      rw
        (
          grow-many blake3 f a b l,
          siblings-grow blake3 f i (a ∷ b ∷ l) (pair_up blake3 (a ∷ b ∷ l)),
        )
        (all_hashes-append _ _ (all_hashes-sibling (a ∷ b ∷ l) i h) (
          all_hashes-siblings f (i / 2) (pair_up blake3 (a ∷ b ∷ l))
            (all_hashes-pair_up (a ∷ b ∷ l) h)))
