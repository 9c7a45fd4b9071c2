-- ===== src/Expression/Number/RoundTrip.antt =====
-- An integer is read back from its encoding, which is no longer than it has to be.
use lib_py.Base.{
  ℕ, zero, suc, ◌+◌, ◌-◌, ◌*◌, ◌/◌, ◌^◌, ◌≤◌, ◌<◌, max, ◌≡◌, refl, sym, ap, length, arith,
}
use lib_py.Base.Int.{ℤ, pos, negsuc}
use native.Mathlib.Nat.{pow-suc}
use lib_py.Base.Bytes.{pow_256}
use lib_py.Base.Bits.{bit_length, lt-pow_bit_length, pow-add, pow_pos, pow-le_of_lt_bit_length}
use lib_py.Expression.Number.{
  magnitude, little_endian, from_little_endian, residue, int_bytes, encode_int, signed_of,
  decode_int,
}

pub length-little_endian : (n value : ℕ) → length (little_endian n value) ≡ n
unfolding little_endian
length-little_endian zero value = refl
length-little_endian (suc n) value = ap suc (length-little_endian n (value / 256))

pub from-little_endian :
    (n value : ℕ) → value < 256 ^ n → from_little_endian (little_endian n value) ≡ value
unfolding little_endian from_little_endian
from-little_endian zero value h = omega arith
from-little_endian (suc n) value h = omega (arith, from-little_endian n (value / 256) (omega arith))

-- The bytes of an integer hold one bit more than its magnitude.
int_bytes_fit : (value : ℤ) → 2 * magnitude value < 256 ^ int_bytes value
unfolding int_bytes
int_bytes_fit value =
    let bits : ℕ = bit_length (magnitude value) in
    let n : ℕ = max 1 ((bits + 8) / 8) in
    let enough : suc bits ≤ 8 * n = ground arith in
    let e : suc bits + (8 * n - suc bits) ≡ 8 * n = omega arith in
    rw (pow_256 n, ← e, pow-add 2 (suc bits) (8 * n - suc bits), pow-suc 2 bits)
      (grind (arith, lt-pow_bit_length (magnitude value), pow_pos (8 * n - suc bits)))

pub pow_mono : (m n : ℕ) → m ≤ n → 2 ^ m ≤ 2 ^ n
pow_mono m n h =
    let e : m + (n - m) ≡ n = omega arith in
    rw (← e, pow-add 2 m (n - m)) (grind (arith, pow_pos (n - m)))

int_bytes_least :
    (value : ℤ) (n : ℕ) → suc (suc n) ≡ int_bytes value → 256 ^ suc n ≤ 2 * magnitude value
unfolding int_bytes
int_bytes_least value n e =
    let bits : ℕ = bit_length (magnitude value) in
    let some_bits : suc (bits - 1) ≡ bits = ground arith in
    let lo : 2 ^ (bits - 1) ≤ magnitude value =
      pow-le_of_lt_bit_length (magnitude value) (bits - 1) (omega arith) in
    let hi : 256 ^ suc n ≤ 2 ^ suc (bits - 1) =
      rw (pow_256 (suc n)) (pow_mono (8 * suc n) (suc (bits - 1)) (ground arith)) in
    omega (arith, rw (pow-suc 2 (bits - 1)) at hi, lo)

residue-lt : (n : ℕ) (value : ℤ) → 2 * magnitude value < 256 ^ n → residue n value < 256 ^ n
residue-lt n (pos m) h = omega arith
residue-lt n (negsuc m) h = omega arith

signed_of-residue :
    (n : ℕ) (value : ℤ)
    → 2 * magnitude value < 256 ^ n
    → signed_of (256 ^ n) (residue n value) ≡ value
signed_of-residue n (pos m) h = ground arith
signed_of-residue n (negsuc m) h = ground arith

-- Each integer is read back from its encoding: `_decode_int(_encode_int(value)) == value`.
pub decode-encode_int : (value : ℤ) → decode_int (encode_int value) ≡ value
unfolding encode_int decode_int
decode-encode_int value =
    let n : ℕ = int_bytes value in
    let fit : 2 * magnitude value < 256 ^ n = int_bytes_fit value in
    rw
      (
        length-little_endian n (residue n value),
        from-little_endian n (residue n value) (residue-lt n value fit),
      )
      (signed_of-residue n value fit)

-- The encoding is as short as its sign allows: where it has n + 2 bytes, twice the magnitude of the
-- integer is at least 256 ^ (n + 1), so that n + 1 bytes do not hold both it and its negation.
pub length-encode_int :
    (value : ℤ) (n : ℕ)
    → length (encode_int value) ≡ suc (suc n)
    → 256 ^ suc n ≤ 2 * magnitude value
unfolding encode_int
length-encode_int value n h =
    let e = length-little_endian (int_bytes value) (residue (int_bytes value) value) in
    int_bytes_least value n (sym (rw e at h))
