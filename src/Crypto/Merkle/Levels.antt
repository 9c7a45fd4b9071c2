-- ===== src/Crypto/Merkle/Levels.antt =====
-- One level of a Merkle tree: a round of the verification takes a hash of a level to the hash
-- above it, and back.
use lib_py.Base.{
  ℕ, zero, suc, ◌+◌, ◌/◌, ◌≡◌, refl, some, List, [], ◌∷◌, ◌++◌, arith, length, get_elem?,
}
use lib_py.Base.Bytes.{Bytes}
use lib_py.Crypto.Merkle.{flip_low, sibling, node, pair_up, absorb}

flip_low-suc : (i : ℕ) → flip_low (suc (suc i)) ≡ suc (suc (flip_low i))
unfolding flip_low
flip_low-suc i = ground arith

-- The siblings of a position, and of the same position two further on.
sibling-suc :
    (a b : Bytes) (l : List Bytes) (i : ℕ) → sibling (a ∷ b ∷ l) (suc (suc i)) ≡ sibling l i
unfolding sibling
sibling-suc a b l i = rw (flip_low-suc i, sibling) refl

module _ (blake3 : Bytes → Bytes) where
  pub length-pair_up : (l : List Bytes) → length (pair_up blake3 l) ≡ (length l + 1) / 2
  unfolding pair_up
  length-pair_up [] = refl
  length-pair_up (a ∷ []) = refl
  length-pair_up (a ∷ b ∷ rest) = omega (arith, length-pair_up rest)

  pub absorb-suc :
      (fn sn : ℕ) (r : Bytes) (proof : List Bytes)
      → absorb blake3 (suc (suc fn)) (suc (suc sn)) r proof ≡ absorb blake3 fn sn r proof
  unfolding absorb
  absorb-suc fn sn r [] = ground arith
  absorb-suc fn sn r (s ∷ proof) = ground arith

  pub absorb_alone : (r : Bytes) (more : List Bytes) → absorb blake3 0 0 r more ≡ some (r, more)
  unfolding absorb
  absorb_alone r [] = refl
  absorb_alone r (s ∷ more) = refl

  pub half_suc :
      (l : List Bytes) (a b : Bytes) (i : ℕ)
      → get_elem? (pair_up blake3 (a ∷ b ∷ l)) (suc (suc i) / 2)
        ≡ get_elem? (pair_up blake3 l) (i / 2)
  unfolding pair_up
  half_suc l a b i = let e : suc (suc i) / 2 ≡ suc (i / 2) = omega arith in rw e refl

  -- With the sibling that the prover lists, a round computes the hash of the next level.
  pub absorb-sibling :
      (l : List Bytes) (i sn : ℕ) (r : Bytes) (more : List Bytes)
      → length l ≡ suc sn
      → get_elem? l i ≡ some r
      → (r' : Bytes) × (absorb blake3 i sn r (sibling l i ++ more) ≡ some (r', more))
        × (get_elem? (pair_up blake3 l) (i / 2) ≡ some r')
  unfolding sibling flip_low
  absorb-sibling [] i sn r more n h = cc
  absorb-sibling (a ∷ []) zero sn r more n h =
      let z : sn ≡ 0 = omega arith in (r, rw z (absorb_alone r more), unfold pair_up in h)
  absorb-sibling (a ∷ []) (suc i) sn r more n h = cc
  absorb-sibling (a ∷ b ∷ l) zero sn r more n h =
      (node blake3 r b, unfold absorb in ground arith, unfold pair_up in ground arith)
  absorb-sibling (a ∷ b ∷ l) (suc zero) sn r more n h =
      (node blake3 a r, unfold absorb in ground arith, unfold pair_up in ground arith)
  absorb-sibling (a ∷ b ∷ []) (suc (suc i)) sn r more n h = cc
  absorb-sibling (a ∷ b ∷ c ∷ l) (suc (suc i)) sn r more n h =
      let (r', down, up) = absorb-sibling (c ∷ l) i (length l) r more refl h in
      let e : sn ≡ suc (suc (length l)) = omega arith in
      (r', rw (e, sibling-suc a b (c ∷ l) i, absorb-suc) down, rw half_suc up)
