-- ===== src/Base/Bytes.antt =====
-- Python's `bytes`: lists of numbers, with their equality as a test.
use native.Mathlib.Nat.{pow-suc}
use lib_py.Base.Bits.{pow-add}
use lib_py.Base.{
  zero, suc, ◌+◌, ◌*◌, ◌/◌, ◌%◌, ◌^◌, ◌<◌, ap, ℕ, ◌≡◌, refl, ◌⊎◌, inl, inr, Bool, true, false, ◌&&◌,
  List, [], ◌∷◌, ◌++◌, arith, ◌==◌, length, Bool-cases,
}

abbrev pub Bytes : Type 0
Bytes = List ℕ

unfoldable pub bytes_eq : Bytes → Bytes → Bool
bytes_eq [] [] = true
bytes_eq [] (y ∷ ys) = false
bytes_eq (x ∷ xs) [] = false
bytes_eq (x ∷ xs) (y ∷ ys) = x == y && bytes_eq xs ys

pub bytes_eq→eq : (a b : Bytes) → bytes_eq a b ≡ true → a ≡ b
unfolding bytes_eq
bytes_eq→eq [] [] h = refl
bytes_eq→eq [] (y ∷ ys) h = cc
bytes_eq→eq (x ∷ xs) [] h = cc
bytes_eq→eq (x ∷ xs) (y ∷ ys) h = ground (arith, bytes_eq→eq xs ys)

pub bytes_eq_self : (a : Bytes) → bytes_eq a a ≡ true
unfolding bytes_eq
bytes_eq_self [] = refl
bytes_eq_self (x ∷ xs) = ground (arith, bytes_eq_self xs)

pub Bytes-cases : (a b : Bytes) → (a ≡ b) ⊎ ((a ≡ b) → ⊥)
Bytes-cases a b = elim (Bool-cases (bytes_eq a b)) [
  | inl same ↦ inl (bytes_eq→eq a b same)
  | inr differ ↦ inr λ e. cc (differ, bytes_eq_self a)
]

-- Two texts of a given first length are equal part by part.
pub append-inj :
    {A : Type 0} (a b c d : List A) → length a ≡ length c → a ++ b ≡ c ++ d → (a ≡ c) × (b ≡ d)
append-inj [] b [] d n e = (refl, e)
append-inj [] b (y ∷ c) d n e = absurd (omega arith)
append-inj (x ∷ a) b [] d n e = absurd (omega arith)
append-inj (x ∷ a) b (y ∷ c) d n e = let (p, q) = append-inj a b c d (omega arith) (cc) in (cc, q)

-- `int.to_bytes(n, "big")` of a number that fits, and `int.from_bytes(buf, "big")`.
unfoldable pub to_bytes_big : ℕ → ℕ → Bytes
to_bytes_big zero value = []
to_bytes_big (suc n) value = (value / 256 ^ n % 256) ∷ to_bytes_big n value

unfoldable pub from_bytes_big : Bytes → ℕ
from_bytes_big [] = 0
from_bytes_big (b ∷ buf) = b * 256 ^ length buf + from_bytes_big buf

pub length-to_bytes_big : (n value : ℕ) → length (to_bytes_big n value) ≡ n
unfolding to_bytes_big
length-to_bytes_big zero value = refl
length-to_bytes_big (suc n) value = ap suc (length-to_bytes_big n value)

-- Each number of the list is a byte.
abbrev pub AreBytes : Bytes → Type 0
AreBytes [] = Unit
AreBytes (b ∷ buf) = (b < 256) × AreBytes buf

pub from_bytes_big-lt : (buf : Bytes) → AreBytes buf → from_bytes_big buf < 256 ^ length buf
unfolding from_bytes_big
from_bytes_big-lt [] h = omega arith
from_bytes_big-lt (b ∷ buf) h = grind (arith, pow-suc 256 (length buf), from_bytes_big-lt buf h.1)

pub pow_256 : (n : ℕ) → 256 ^ n ≡ 2 ^ (8 * n)
pow_256 zero = refl
pow_256 (suc n) =
    let e : 8 * suc n ≡ 8 + 8 * n = omega arith in
    rw (e, pow-add 2 8 (8 * n), pow-suc 256 n, pow_256 n) (omega arith)

pub from_bytes_big-lt_pow : (buf : Bytes) → AreBytes buf → from_bytes_big buf < 2 ^ (8 * length buf)
from_bytes_big-lt_pow buf h = rw (← pow_256 (length buf)) (from_bytes_big-lt buf h)

pub from_bytes_big-cons :
    (b : ℕ) (buf : Bytes) → from_bytes_big (b ∷ buf) ≡ b * 2 ^ (8 * length buf) + from_bytes_big buf
unfolding from_bytes_big
from_bytes_big-cons b buf = rw (← pow_256 (length buf)) refl
