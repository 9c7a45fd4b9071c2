-- ===== src/Communication/MessagePow/Zeros.antt =====
-- The leading zero bits of a buffer, read as a big-endian number.
use lib_py.Base.{zero, suc, ◌+◌, ◌-◌, ◌*◌, ◌≤◌, ◌≡◌, refl, [], ◌∷◌, arith, length}
use lib_py.Base.Bits.{bit_length, bit_length-shift, bit_length-le}
use lib_py.Base.Bytes.{Bytes, AreBytes, from_bytes_big, from_bytes_big-lt_pow, from_bytes_big-cons}
use lib_py.Communication.MessagePow.{leading_zero_bits}

-- `leading_zero_bits` of a buffer of bytes counts the bits that its big-endian number leaves free:
-- eight for each byte, less the bit length of the number.
pub leading_zero_bits-eq-sub :
    (buf : Bytes)
    → AreBytes buf
    → leading_zero_bits buf ≡ 8 * length buf - bit_length (from_bytes_big buf)
unfolding leading_zero_bits
leading_zero_bits-eq-sub [] h = unfold from_bytes_big bit_length in refl
leading_zero_bits-eq-sub (zero ∷ buf) h =
    let value : from_bytes_big (zero ∷ buf) ≡ from_bytes_big buf =
      omega (arith, from_bytes_big-cons 0 buf) in
    let room : bit_length (from_bytes_big buf) ≤ 8 * length buf =
      bit_length-le _ _ (from_bytes_big-lt_pow buf h.1) in
    rw value (omega (arith, leading_zero_bits-eq-sub buf h.1))
leading_zero_bits-eq-sub (suc b ∷ buf) h =
    let bits : bit_length (from_bytes_big (suc b ∷ buf)) ≡ bit_length (suc b) + 8 * length buf =
      rw (from_bytes_big-cons (suc b) buf) (
        bit_length-shift (suc b) (8 * length buf) (from_bytes_big buf) (omega arith)
          (from_bytes_big-lt_pow buf h.1)) in
    let byte : bit_length (suc b) ≤ 8 = bit_length-le (suc b) 8 (h.0) in rw bits (ground arith)
