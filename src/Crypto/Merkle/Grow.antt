-- ===== src/Crypto/Merkle/Grow.antt =====
-- The levels that `create_merkle_tree` builds above a level.
use lib_py.Base.{
  ℕ, zero, suc, ◌/◌, ◌≡◌, refl, List, [], ◌∷◌, ◌++◌, arith, length, ltb, lt→ltb, Bool-cases, inl,
  inr,
}
use lib_py.Base.Bytes.{Bytes}
use lib_py.Crypto.Merkle.{sibling, siblings, pair_up, grow, root_of}

module _ (blake3 : Bytes → Bytes) where
  pub grow-cons :
      (f : ℕ) (level : List Bytes)
      → (rest : List (List Bytes)) × (grow blake3 f level ≡ level ∷ rest)
  unfolding grow
  grow-cons zero level = ([], refl)
  grow-cons (suc f) level = elim (Bool-cases (ltb 1 (length level))) [
    | inl many ↦ (grow blake3 f (pair_up blake3 level), rw many)
    | inr one ↦ ([], rw one)
  ]

  -- The next level is above this one.
  pub siblings-grow :
      (f i : ℕ) (level next : List Bytes)
      → siblings (level ∷ grow blake3 f next) i
        ≡ sibling level i ++ siblings (grow blake3 f next) (i / 2)
  unfolding siblings
  siblings-grow f i level next = let (rest, e) = grow-cons f next in rw e refl

  pub root_of-grow :
      (f : ℕ) (level next : List Bytes)
      → root_of (level ∷ grow blake3 f next) ≡ root_of (grow blake3 f next)
  unfolding root_of
  root_of-grow f level next = let (rest, e) = grow-cons f next in rw e refl

  pub grow-many :
      (f : ℕ) (a b : Bytes) (l : List Bytes)
      → grow blake3 (suc f) (a ∷ b ∷ l) ≡ (a ∷ b ∷ l) ∷ grow blake3 f (pair_up blake3 (a ∷ b ∷ l))
  unfolding grow
  grow-many f a b l = rw (lt→ltb 1 (suc (suc (length l))) (omega arith))

  pub grow_one : (f : ℕ) (a : Bytes) → grow blake3 f (a ∷ []) ≡ (a ∷ []) ∷ []
  unfolding grow
  grow_one zero a = refl
  grow_one (suc f) a = refl
