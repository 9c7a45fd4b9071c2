-- ===== src/Consensus/Difficulty/Prefix.antt =====
-- Two ways to count the leading bits that two keys share.
use lib_py.Base.{
  ℕ, zero, suc, ◌+◌, ◌*◌, ◌/◌, ◌^◌, ◌<◌, ◌≡◌, refl, ap, inl, inr, [], ◌∷◌, length, ◌==◌, arith,
  Bool-cases,
}
use native.Mathlib.Nat.{pow-suc}
use lib_py.Base.Bytes.{Bytes, AreBytes}
use lib_py.Communication.MessagePow.{leading_zero_bits}
use lib_py.Communication.MessagePow.Zeros.{leading_zero_bits-eq-sub}
use lib_py.Consensus.Difficulty.{
  xor_bits, xor_bytes, shared_prefix_bits, matching_from, matching_leading_bits,
}

xor_bits-lt : (n x y : ℕ) → xor_bits n x y < 2 ^ n
unfolding xor_bits
xor_bits-lt zero x y = omega arith
xor_bits-lt (suc n) x y = omega (arith, xor_bits-lt n (x / 2) (y / 2), pow-suc 2 n)

xor_bytes-AreBytes : (a b : Bytes) → AreBytes (xor_bytes a b)
unfolding xor_bytes
xor_bytes-AreBytes [] b = tt
xor_bytes-AreBytes (x ∷ a) [] = tt
xor_bytes-AreBytes (x ∷ a) (y ∷ b) = (xor_bits-lt 8 x y, xor_bytes-AreBytes a b)

length-xor_bytes : (a b : Bytes) → length a ≡ length b → length (xor_bytes a b) ≡ length a
unfolding xor_bytes
length-xor_bytes [] b h = refl
length-xor_bytes (x ∷ a) [] h = absurd (omega arith)
length-xor_bytes (x ∷ a) (y ∷ b) h = ap suc (length-xor_bytes a b (omega arith))

-- The loop counts the leading zero bits of the exclusive or.
matching_from-leading_zero_bits :
    (width i : ℕ) (a b : Bytes)
    → length a ≡ length b
    → width ≡ i + length a
    → matching_from width i a b ≡ i * 8 + leading_zero_bits (xor_bytes a b)
unfolding matching_from xor_bytes leading_zero_bits
matching_from-leading_zero_bits width i [] [] h w = omega (arith, w)
matching_from-leading_zero_bits width i [] (y ∷ b) h w = absurd (omega arith)
matching_from-leading_zero_bits width i (x ∷ a) [] h w = absurd (omega arith)
matching_from-leading_zero_bits width i (x ∷ a) (y ∷ b) h w =
    elim (Bool-cases (xor_bits 8 x y == 0)) [
      | inl same ↦ rw same (
          omega
            (arith, matching_from-leading_zero_bits width (i + 1) a b (omega arith) (omega arith)))
      | inr differ ↦ rw differ refl
    ]

-- For keys of equal length, `_matching_leading_bits` of the routing table and `shared_prefix_bits` of
-- the storage difficulty are the same number.
pub matching_leading_bits-shared_prefix_bits :
    (a b : Bytes) → length a ≡ length b → matching_leading_bits a b ≡ shared_prefix_bits a b
unfolding matching_leading_bits shared_prefix_bits
matching_leading_bits-shared_prefix_bits a b h =
    let loop : matching_from (length a) 0 a b ≡ leading_zero_bits (xor_bytes a b) =
      omega (arith, matching_from-leading_zero_bits (length a) 0 a b h (omega arith)) in
    omega (
      arith,
      loop,
      leading_zero_bits-eq-sub (xor_bytes a b) (xor_bytes-AreBytes a b),
      length-xor_bytes a b h,
    )
