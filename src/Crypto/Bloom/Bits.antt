-- ===== src/Crypto/Bloom/Bits.antt =====
-- Bits that are set stay set: the positions of a tier.
use lib_py.Base.{
  ℕ, zero, suc, ◌+◌, ◌*◌, ◌/◌, ◌%◌, ◌<◌, ◌≡◌, ◌≢◌, refl, sym, ap, subst, ◌∙◌, inl, inr, true, List,
  [], ◌∷◌, length, set, get_or, length-set, ◌==◌, arith, Bool-cases,
}
use native.Mathlib.Decide.{dec_lt}
use lib_py.Base.Bytes.{Bytes}
use lib_py.Crypto.Bloom.{
  set_bit, test_bit, set_position, set_positions, has_position, has_positions,
}

test_bit-set_bit : (b i : ℕ) → test_bit (set_bit b i) i ≡ true
unfolding test_bit set_bit
test_bit-set_bit b zero = ground arith
test_bit-set_bit b (suc i) =
    let e : (b % 2 + 2 * set_bit (b / 2) i) / 2 ≡ set_bit (b / 2) i = omega arith in
    rw e (test_bit-set_bit (b / 2) i)

test_bit-set_bit_keeps : (b i j : ℕ) → test_bit b j ≡ true → test_bit (set_bit b i) j ≡ true
unfolding test_bit set_bit
test_bit-set_bit_keeps b zero zero h = ground arith
test_bit-set_bit_keeps b zero (suc j) h =
    let e : (b / 2 * 2 + 1) / 2 ≡ b / 2 = omega arith in rw e h
test_bit-set_bit_keeps b (suc i) zero h = ground arith
test_bit-set_bit_keeps b (suc i) (suc j) h =
    let e : (b % 2 + 2 * set_bit (b / 2) i) / 2 ≡ set_bit (b / 2) i = omega arith in
    rw e (test_bit-set_bit_keeps (b / 2) i j h)

get_or-set : (xs : Bytes) (i v : ℕ) → i < length xs → get_or (set xs i v) i 0 ≡ v
get_or-set [] i v h = absurd (omega arith)
get_or-set (x ∷ xs) zero v h = refl
get_or-set (x ∷ xs) (suc i) v h = get_or-set xs i v (omega arith)

get_or-set_ne : (xs : Bytes) (i j v : ℕ) → i ≢ j → get_or (set xs i v) j 0 ≡ get_or xs j 0
get_or-set_ne [] i j v h = refl
get_or-set_ne (x ∷ xs) zero zero v h = absurd (h refl)
get_or-set_ne (x ∷ xs) zero (suc j) v h = refl
get_or-set_ne (x ∷ xs) (suc i) zero v h = refl
get_or-set_ne (x ∷ xs) (suc i) (suc j) v h = get_or-set_ne xs i j v (λ e. h (ap suc e))

has-set_position :
    (tier : Bytes) (pos : ℕ)
    → pos < length tier * 8
    → has_position (set_position tier pos) pos ≡ true
unfolding has_position set_position
has-set_position tier pos h =
    rw (get_or-set tier (pos / 8) (set_bit (get_or tier (pos / 8) 0) (pos % 8)) (omega arith))
      (test_bit-set_bit (get_or tier (pos / 8) 0) (pos % 8))

get_or_beyond : (xs : Bytes) (i v : ℕ) → (i < length xs → ⊥) → set xs i v ≡ xs
get_or_beyond [] i v h = refl
get_or_beyond (x ∷ xs) zero v h = absurd (h (omega arith))
get_or_beyond (x ∷ xs) (suc i) v h = ap (λ l. x ∷ l) (get_or_beyond xs i v (λ k. h (omega arith)))

has-set_position_keeps :
    (tier : Bytes) (pos p : ℕ)
    → has_position tier p ≡ true
    → has_position (set_position tier pos) p ≡ true
unfolding has_position set_position
has-set_position_keeps tier pos p h = elim (dec_lt (pos / 8) (length tier)) [
  | no beyond ↦
      rw (get_or_beyond tier (pos / 8) (set_bit (get_or tier (pos / 8) 0) (pos % 8)) beyond) h
  | yes within ↦ elim (Bool-cases ((pos / 8) == (p / 8))) [
    | inl equal ↦
        let same : pos / 8 ≡ p / 8 = ground arith in
        rw (← same) (
          rw (get_or-set tier (pos / 8) (set_bit (get_or tier (pos / 8) 0) (pos % 8)) within)
            (test_bit-set_bit_keeps (get_or tier (pos / 8) 0) (pos % 8) (p % 8) (rw same h)))
    | inr unequal ↦
        let apart : pos / 8 ≢ p / 8 = ground arith in
        rw
          (get_or-set_ne tier (pos / 8) (p / 8) (set_bit (get_or tier (pos / 8) 0) (pos % 8)) apart)
          h
  ]
]

length-set_position : (tier : Bytes) (p : ℕ) → length (set_position tier p) ≡ length tier
unfolding set_position
length-set_position tier p = length-set tier (p / 8) (set_bit (get_or tier (p / 8) 0) (p % 8))

pub length-set_positions :
    (ps : List ℕ) (tier : Bytes) → length (set_positions ps tier) ≡ length tier
unfolding set_positions set_position
length-set_positions [] tier = refl
length-set_positions (p ∷ ps) tier =
    length-set_positions ps _ ∙ length-set tier (p / 8) (set_bit (get_or tier (p / 8) 0) (p % 8))

has-set_positions_keeps :
    (ps : List ℕ) (tier : Bytes) (p : ℕ)
    → has_position tier p ≡ true
    → has_position (set_positions ps tier) p ≡ true
unfolding set_positions
has-set_positions_keeps [] tier p h = h
has-set_positions_keeps (q ∷ ps) tier p h =
    has-set_positions_keeps ps (set_position tier q) p (has-set_position_keeps tier q p h)

-- Positions that a tier has stay there when others are set.
pub has_positions-set_positions_keeps :
    (qs ps : List ℕ) (tier : Bytes)
    → has_positions qs tier ≡ true
    → has_positions qs (set_positions ps tier) ≡ true
unfolding has_positions
has_positions-set_positions_keeps [] ps tier h = refl
has_positions-set_positions_keeps (q ∷ qs) ps tier h =
    grind (arith, has-set_positions_keeps ps tier q, has_positions-set_positions_keeps qs ps tier)

-- Each position of the list lies in the tier.
abbrev pub AllBelow : ℕ → List ℕ → Type 0
AllBelow bits [] = Unit
AllBelow bits (p ∷ ps) = (p < bits) × AllBelow bits ps

pub has_positions-set_positions :
    (ps : List ℕ) (tier : Bytes)
    → AllBelow (length tier * 8) ps
    → has_positions ps (set_positions ps tier) ≡ true
unfolding has_positions set_positions
has_positions-set_positions [] tier h = refl
has_positions-set_positions (p ∷ ps) tier h =
    let here : has_position (set_positions ps (set_position tier p)) p ≡ true =
      has-set_positions_keeps ps (set_position tier p) p (has-set_position tier p h.0) in
    let size : length (set_position tier p) ≡ length tier = length-set_position tier p in
    rw here (
      has_positions-set_positions ps (set_position tier p)
        (subst (λ n. AllBelow (n * 8) ps) (sym size) h.1))
