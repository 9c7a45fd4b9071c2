-- ===== src/Machine/Operators/Bytes/Bits.antt =====
-- The numbers of bytes, and what the bitwise operations make of them.
use native.Mathlib.Nat.{pow-suc, pow-zero}
use lib_py.Base.{
  ℕ, zero, suc, ◌+◌, ◌-◌, ◌*◌, ◌/◌, ◌%◌, ◌^◌, ◌≤◌, ◌<◌, max, ◌≡◌, refl, [], ◌∷◌, length, arith,
}
use lib_py.Base.Bits.{bit_length, lt-pow_bit_length}
use lib_py.Base.Bytes.{Bytes, AreBytes, pow_256}
use lib_py.Expression.Number.{little_endian, from_little_endian}
use lib_py.Expression.Number.RoundTrip.{length-little_endian, from-little_endian, pow_mono}
use lib_py.Machine.Operators.Bytes.{bitwise, bit_and, combine, to_bytes_by_bits, complement}

pub from_little_endian-lt : (x : Bytes) → AreBytes x → from_little_endian x < 256 ^ length x
unfolding from_little_endian
from_little_endian-lt [] h = omega arith
from_little_endian-lt (b ∷ x) h = grind (arith, pow-suc 256 (length x), from_little_endian-lt x h.1)

-- Bytes are the encoding of their number.
pub little_endian-from_little_endian :
    (x : Bytes) → AreBytes x → little_endian (length x) (from_little_endian x) ≡ x
unfolding little_endian from_little_endian
little_endian-from_little_endian [] h = refl
little_endian-from_little_endian (b ∷ x) h =
    let rest = little_endian-from_little_endian x h.1 in
    let low : (b + 256 * from_little_endian x) % 256 ≡ b = omega (arith, h.0) in
    let high : (b + 256 * from_little_endian x) / 256 ≡ from_little_endian x = omega (arith, h.0) in
    rw (low, high, rest) refl

bit_and_same : (b : ℕ) → b < 2 → bit_and b b ≡ b
bit_and_same zero h = refl
bit_and_same (suc zero) h = refl
bit_and_same (suc (suc b)) h = absurd (omega arith)

-- The conjunction of a number with itself is the number.
bitwise_same : (bits x : ℕ) → x < 2 ^ bits → bitwise bit_and bits x x ≡ x
unfolding bitwise
bitwise_same zero x h = ground (arith, pow-zero 2)
bitwise_same (suc bits) x h =
    let rest = bitwise_same bits (x / 2) (ground (arith, pow-suc 2 bits)) in
    let low = bit_and_same (x % 2) (omega arith) in rw (rest, low) (omega arith)

pub combine_same : (x : Bytes) → AreBytes x → combine bit_and x x ≡ from_little_endian x
combine_same x h =
    let e : 8 * max (length x) (length x) ≡ 8 * length x = ground arith in
    rw e (
      bitwise_same (8 * length x) (from_little_endian x)
        (rw (← pow_256 (length x)) (from_little_endian-lt x h)))

-- A number has its value in as many bytes as it has bits.
pub from-to_bytes_by_bits : (r : ℕ) → from_little_endian (to_bytes_by_bits r) ≡ r
from-to_bytes_by_bits r =
    let n : ℕ = max 1 (bit_length r) in
    let wide : 2 ^ bit_length r ≤ 2 ^ (8 * n) = pow_mono (bit_length r) (8 * n) (ground arith) in
    from-little_endian n r (rw (pow_256 n) (omega (arith, wide, lt-pow_bit_length r)))

complement_wide :
    (w : ℕ) (x : Bytes)
    → length x ≡ w
    → from_little_endian x < 256 ^ w
    → little_endian w (from_little_endian x) ≡ x
    → little_endian w
        (256 ^ w - 1 - from_little_endian (little_endian w (256 ^ w - 1 - from_little_endian x)))
      ≡ x
complement_wide w x e h same =
    let back = from-little_endian w (256 ^ w - 1 - from_little_endian x) (omega (arith, h)) in
    let twice : 256 ^ w - 1 - (256 ^ w - 1 - from_little_endian x) ≡ from_little_endian x =
      omega (arith, h) in
    rw (back, twice) same

pub complement_twice : (x : Bytes) → AreBytes x → 1 ≤ length x → complement (complement x) ≡ x
complement_twice x h some_bytes =
    let w : ℕ = length x in
    let width : max w 1 ≡ w = ground arith in
    let long = length-little_endian w (256 ^ w - 1 - from_little_endian x) in
    rw (width, long, width)
      (complement_wide w x refl (from_little_endian-lt x h) (little_endian-from_little_endian x h))
