-- ===== src/Crypto/Merkle/Rounds.antt =====
-- What a round of the verification says of the hashes below, up to a collision of the hash.
use lib_py.Base.{
  ℕ, zero, suc, ◌/◌, ◌≡◌, refl, ◌⊎◌, inl, inr, some, List, [], ◌∷◌, ◌++◌, arith, length, get_elem?,
  true,
}
use lib_py.Base.Bytes.{Bytes, Bytes-cases, append-inj}
use lib_py.Crypto.Merkle.{all_hashes, hash_len, leaf, node, pair_up, absorb}
use lib_py.Crypto.Merkle.Levels.{absorb_alone, half_suc, absorb-suc}

-- Two different messages with one digest.
abbrev pub Collision : (Bytes → Bytes) → Type 0
Collision blake3 = (x : Bytes) × (y : Bytes) × (x ≡ y → ⊥) × (blake3 x ≡ blake3 y)

module _ (blake3 : Bytes → Bytes) where
  pub leaf-inj : (v w : Bytes) → leaf blake3 v ≡ leaf blake3 w → (v ≡ w) ⊎ Collision blake3
  unfolding leaf
  leaf-inj v w e = elim (Bytes-cases (0 ∷ v) (0 ∷ w)) [
    | inl same ↦ inl (cc)
    | inr differ ↦ inr (0 ∷ v, 0 ∷ w, differ, e)
  ]

  node-inj :
      (a b c d : Bytes)
      → length a ≡ length c
      → node blake3 a b ≡ node blake3 c d
      → (a ≡ c) × (b ≡ d) ⊎ Collision blake3
  unfolding node
  node-inj a b c d n e = elim (Bytes-cases (1 ∷ (a ++ b)) (1 ∷ (c ++ d))) [
    | inl same ↦ inl (append-inj a b c d n (cc))
    | inr differ ↦ inr (1 ∷ (a ++ b), 1 ∷ (c ++ d), differ, e)
  ]

  -- The lengths of what a round keeps.
  pub absorb_lengths :
      (digest_length : (m : Bytes) → length (blake3 m) ≡ hash_len) (i sn : ℕ) (r : Bytes)
      (proof : List Bytes) {r' : Bytes} {left : List Bytes}
      → length r ≡ hash_len
      → all_hashes proof ≡ true
      → absorb blake3 i sn r proof ≡ some (r', left)
      → (length r' ≡ hash_len) × (all_hashes left ≡ true)
  unfolding absorb all_hashes node
  absorb_lengths dl i sn r [] n a e = ground arith
  absorb_lengths dl i sn r (s ∷ proof) n a e = ground (arith, dl (1 ∷ (s ++ r)), dl (1 ∷ (r ++ s)))

  -- If a round ends at the hash above a position, it began at the hash of the position.
  pub absorb_sound :
      (l : List Bytes) (i sn : ℕ) (x r : Bytes) (proof : List Bytes) (r' : Bytes)
      (left : List Bytes)
      → length l ≡ suc sn
      → all_hashes l ≡ true
      → length r ≡ hash_len
      → all_hashes proof ≡ true
      → get_elem? l i ≡ some x
      → absorb blake3 i sn r proof ≡ some (r', left)
      → get_elem? (pair_up blake3 l) (i / 2) ≡ some r'
      → (x ≡ r) ⊎ Collision blake3
  absorb_sound [] i sn x r proof r' left n al nr ap at ab up = cc
  absorb_sound (a ∷ []) zero sn x r proof r' left n al nr ap at ab up =
      let z : sn ≡ 0 = omega arith in
      let top : a ≡ r' = unfold pair_up in cc in inl (cc (z, absorb_alone blake3 r proof))
  absorb_sound (a ∷ []) (suc i) sn x r proof r' left n al nr ap at ab up = cc
  absorb_sound (a ∷ b ∷ l) zero sn x r [] r' left n al nr ap at ab up =
      absurd (unfold absorb in ground arith)
  absorb_sound (a ∷ b ∷ l) zero sn x r (s ∷ proof) r' left n al nr ap at ab up =
      let e : node blake3 a b ≡ node blake3 r s = unfold absorb pair_up in ground arith in
      let m : length a ≡ length r = unfold all_hashes in ground arith in
      elim (node-inj a b r s m e) [ inl p ↦ inl (cc (p.0)) | inr c ↦ inr c ]
  absorb_sound (a ∷ b ∷ l) (suc zero) sn x r [] r' left n al nr ap at ab up =
      absurd (unfold absorb in ground arith)
  absorb_sound (a ∷ b ∷ l) (suc zero) sn x r (s ∷ proof) r' left n al nr ap at ab up =
      let e : node blake3 a b ≡ node blake3 s r = unfold absorb pair_up in ground arith in
      let m : length a ≡ length s = unfold all_hashes in ground arith in
      elim (node-inj a b s r m e) [ inl p ↦ inl (cc (p.1)) | inr c ↦ inr c ]
  absorb_sound (a ∷ b ∷ []) (suc (suc i)) sn x r proof r' left n al nr ap at ab up = cc
  absorb_sound (a ∷ b ∷ c ∷ l) (suc (suc i)) sn x r proof r' left n al nr ap at ab up =
      let z : sn ≡ suc (suc (length l)) = omega arith in
      let al' : all_hashes (c ∷ l) ≡ true = unfold all_hashes in ground arith in
      absorb_sound (c ∷ l) i (length l) x r proof r' left refl al' nr ap at
        (cc (z, absorb-suc blake3 i (length l) r proof)) (cc (half_suc blake3 (c ∷ l) a b i))
