-- ===== src/Base/Bits.antt =====
-- Bit lengths: Python's `int.bit_length` on a number that is not negative.
use native.Mathlib.Nat.{pow-suc, pow-zero, one-le-pow}
use lib_py.Base.{ℕ, zero, suc, ◌*◌, ◌≡◌, ◌+◌, ◌-◌, ◌/◌, ◌^◌, ◌≤◌, ◌<◌, arith, ◌==◌, if◌then◌else◌}

-- The number of halvings that bring `n` to 0; the fuel is one more than enough.
bit_length_fuel : ℕ → ℕ → ℕ
bit_length_fuel zero n = 0
bit_length_fuel (suc f) n = let rest = bit_length_fuel f (n / 2) + 1 in if n == 0 then 0 else rest

unfoldable pub bit_length : ℕ → ℕ
unfolding bit_length_fuel
bit_length n = bit_length_fuel n n

pub pow_pos : (i : ℕ) → 1 ≤ 2 ^ i
pow_pos i = one-le-pow i 2 (omega arith)

-- 2 ^ i ≤ n exactly when the bit i lies within the bit length.
bit_length_fuel-le : (f n i : ℕ) → n ≤ f → 2 ^ i ≤ n → i < bit_length_fuel f n
unfolding bit_length_fuel
bit_length_fuel-le zero n i h p = absurd (omega (arith, pow_pos i))
bit_length_fuel-le (suc f) n zero h p = ground (arith, pow_pos 0)
bit_length_fuel-le (suc f) n (suc i) h p =
    ground (arith, pow-suc 2 i, pow_pos i, bit_length_fuel-le f (n / 2) i)

bit_length_fuel-ge : (f n i : ℕ) → i < bit_length_fuel f n → 2 ^ i ≤ n
unfolding bit_length_fuel
bit_length_fuel-ge zero n i p = elim p [ ]
bit_length_fuel-ge (suc f) n zero p = ground arith
bit_length_fuel-ge (suc f) n (suc i) p = ground (arith, pow-suc 2 i, bit_length_fuel-ge f (n / 2) i)

pub lt_bit_length : (n i : ℕ) → 2 ^ i ≤ n → i < bit_length n
unfolding bit_length
lt_bit_length n i p = bit_length_fuel-le n n i (omega arith) p

pub pow-le_of_lt_bit_length : (n i : ℕ) → i < bit_length n → 2 ^ i ≤ n
unfolding bit_length
pow-le_of_lt_bit_length n i p = bit_length_fuel-ge n n i p

pub bit_length-le : (n i : ℕ) → n < 2 ^ i → bit_length n ≤ i
bit_length-le n i h = ground (arith, pow-le_of_lt_bit_length n i)

pub lt-pow_bit_length : (n : ℕ) → n < 2 ^ bit_length n
lt-pow_bit_length n = ground (arith, lt_bit_length n (bit_length n))

-- The bit length is the one number that brackets.
pub bit_length_unique : (n i : ℕ) → 2 ^ i ≤ n → n < 2 ^ suc i → bit_length n ≡ suc i
bit_length_unique n i lo hi = omega (arith, lt_bit_length n i lo, bit_length-le n (suc i) hi)

pub pow-add : (b m n : ℕ) → b ^ (m + n) ≡ b ^ m * b ^ n
pow-add b m zero = grind (arith, pow-zero b)
pow-add b m (suc n) =
    let e : m + suc n ≡ suc (m + n) = omega arith in
    rw (e, pow-suc b (m + n), pow-suc b n, pow-add b m n) (omega arith)

-- A number shifted by whole bits, with less than one unit added.
pub bit_length-shift :
    (b k v : ℕ) → 0 < b → v < 2 ^ k → bit_length (b * 2 ^ k + v) ≡ bit_length b + k
bit_length-shift b k v h lt =
    let j : ℕ = bit_length b - 1 in
    let some_bits : 0 < bit_length b = lt_bit_length b 0 h in
    let top : suc j ≡ bit_length b = omega arith in
    let lo : 2 ^ j ≤ b = pow-le_of_lt_bit_length b j (omega arith) in
    let hi : b < 2 ^ suc j = rw top (lt-pow_bit_length b) in
    let lo' : 2 ^ (j + k) ≤ b * 2 ^ k + v = rw (pow-add 2 j k) (grind arith) in
    let hi' : b * 2 ^ k + v < 2 ^ (suc j + k) = rw (pow-add 2 (suc j) k) (grind arith) in
    let e : suc j + k ≡ suc (j + k) = omega arith in
    omega (arith, bit_length_unique (b * 2 ^ k + v) (j + k) lo' (rw e at hi'))

pub bit_length_mono : (m n : ℕ) → m ≤ n → bit_length m ≤ bit_length n
bit_length_mono m n h = bit_length-le m (bit_length n) (omega (arith, lt-pow_bit_length n))
