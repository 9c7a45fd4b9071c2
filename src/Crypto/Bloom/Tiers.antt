-- ===== src/Crypto/Bloom/Tiers.antt =====
-- The tiers of a filter: tier i has 2 ^ (i + 1) bytes, and a filter of n elements has as many tiers
-- as n has bits.
use lib_py.Base.{
  ℕ, zero, suc, ◌+◌, ◌-◌, ◌*◌, ◌/◌, ◌^◌, ◌≤◌, ◌<◌, ◌≡◌, refl, sym, ap, ◌∙◌, inl, inr, some, List,
  [], ◌∷◌, ◌++◌, length, get_elem?, set, length-set, length-append, length-replicate, leb, arith,
  Bool-cases, get_elem?-lt,
}
use lib_py.Base.Bits.{bit_length, bit_length_unique, bit_length_mono, pow_pos}
use lib_py.Base.Bytes.{Bytes}
use native.Mathlib.Nat.{pow-suc}
use lib_py.Crypto.Bloom.{
  BloomFilter, new_filter, find_tier, new_tier, add_tiers, tier_index, ensure_tier, positions_in,
  bloom_insert, insert_all, set_positions,
}
use lib_py.Crypto.Bloom.Bits.{length-set_positions}

pow_next : (i : ℕ) → 2 ^ (i + 1) ≡ 2 * 2 ^ i
pow_next i = let e : i + 1 ≡ suc i = omega arith in rw e (omega (arith, pow-suc 2 i))

-- The search stops at the tier whose range of places, from 2 ^ i - 1 on, holds the count.
find_tier-range :
    (f cum i count : ℕ)
    → cum + 1 ≡ 2 ^ i
    → cum ≤ count
    → count < cum + f
    → (2 ^ find_tier f cum i count ≤ count + 1) × (count + 1 < 2 ^ suc (find_tier f cum i count))
unfolding find_tier
find_tier-range zero cum i count h lo hi = absurd (omega arith)
find_tier-range (suc f) cum i count h lo hi = elim (Bool-cases (leb (cum + 2 ^ i) count)) [
  | inl more ↦
      let p : 2 ^ (i + 1) ≡ 2 * 2 ^ i = pow_next i in
      let q : 1 ≤ 2 ^ i = pow_pos i in
      rw more
        (find_tier-range f (cum + 2 ^ i) (i + 1) count (omega arith) (ground arith) (omega arith))
  | inr here ↦
      let p : 2 ^ suc i ≡ 2 * 2 ^ i = omega (arith, pow-suc 2 i) in
      rw here (omega arith, ground arith)
]

pub bit_length-tier_index : (bf : BloomFilter) → bit_length (bf.count + 1) ≡ suc (tier_index bf)
unfolding tier_index
bit_length-tier_index bf =
    let (lo, hi) = find_tier-range (suc bf.count) 0 0 bf.count refl (omega arith) (omega arith) in
    bit_length_unique (bf.count + 1) (find_tier (suc bf.count) 0 0 bf.count) lo hi

-- Tier k of the list, counted from i, has the size of tier i + k.
abbrev pub Sized : ℕ → List Bytes → Type 0
Sized i [] = Unit
Sized i (tier ∷ rest) = (length tier ≡ 2 * 2 ^ i) × Sized (i + 1) rest

length-new_tier : (i : ℕ) → length (new_tier i) ≡ 2 * 2 ^ i
unfolding new_tier
length-new_tier i =
    let zero_byte : ℕ = 0 in omega (arith, length-replicate ((2 ^ i * 16 + 7) / 8) zero_byte)

Sized-append :
    (i : ℕ) (tiers : List Bytes) (t : Bytes)
    → Sized i tiers
    → length t ≡ 2 * 2 ^ (i + length tiers)
    → Sized i (tiers ++ t ∷ [])
Sized-append i [] t h e = (let z : i + 0 ≡ i = omega arith in e ∙ ap (λ n. 2 * 2 ^ n) z, tt)
Sized-append i (x ∷ tiers) t h e = (
  h.0,
  Sized-append (i + 1) tiers t h.1 (
      let z : i + suc (length tiers) ≡ i + 1 + length tiers = omega arith in
      e ∙ ap (λ n. 2 * 2 ^ n) z),
)

add_tiers-Sized : (m : ℕ) (tiers : List Bytes) → Sized 0 tiers → Sized 0 (add_tiers m tiers)
unfolding add_tiers
add_tiers-Sized zero tiers h = h
add_tiers-Sized (suc m) tiers h = add_tiers-Sized m _ (
    Sized-append 0 tiers (new_tier (length tiers)) h (
      let z : 0 + length tiers ≡ length tiers = omega arith in
      rw z (length-new_tier (length tiers))))

length-add_tiers : (m : ℕ) (tiers : List Bytes) → length (add_tiers m tiers) ≡ length tiers + m
unfolding add_tiers
length-add_tiers zero tiers = omega arith
length-add_tiers (suc m) tiers = omega (
  arith,
  length-add_tiers m (tiers ++ new_tier (length tiers) ∷ []),
  length-append tiers (new_tier (length tiers) ∷ []),
)

Sized-set :
    (i : ℕ) (tiers : List Bytes) (k : ℕ) (t t' : Bytes)
    → Sized i tiers
    → get_elem? tiers k ≡ some t
    → length t' ≡ length t
    → Sized i (set tiers k t')
Sized-set i [] k t t' h e l = tt
Sized-set i (x ∷ tiers) zero t t' h e l =
    let same : x ≡ t = cc in (l ∙ ap length (sym same) ∙ h.0, h.1)
Sized-set i (x ∷ tiers) (suc k) t t' h e l = (h.0, Sized-set (i + 1) tiers k t t' h.1 e l)

-- What every filter that is built from the empty one keeps to.
pub Fits : BloomFilter → Type 0
Fits bf = Sized 0 bf.tiers × (length bf.tiers ≡ bit_length bf.count)

-- The tiers that `_ensure_tier` leaves have the right sizes, the tier of the next element is the
-- last, and the count has its place there.
pub ensure_tier-Sized :
    (bf : BloomFilter)
    → Fits bf
    → Sized 0 (ensure_tier bf) × (length (ensure_tier bf) ≡ suc (tier_index bf))
unfolding ensure_tier Fits
ensure_tier-Sized bf h =
    let mono : bit_length bf.count ≤ bit_length (bf.count + 1) =
      bit_length_mono bf.count (bf.count + 1) (omega arith) in
    (
      add_tiers-Sized (suc (tier_index bf) - length bf.tiers) bf.tiers h.0,
      omega (
        arith,
        h.1,
        length-add_tiers (suc (tier_index bf) - length bf.tiers) bf.tiers,
        bit_length-tier_index bf,
      ),
    )

pub bloom_insert-Fits :
    (blake3 : ℕ → Bytes → Bytes) (element : Bytes) (bf : BloomFilter)
    → Fits bf
    → Fits (bloom_insert blake3 element bf)
      × ((bloom_insert blake3 element bf).count ≡ bf.count + 1)
unfolding bloom_insert Fits
bloom_insert-Fits blake3 element bf h =
    let (sized, size) = ensure_tier-Sized bf h in
    let (tier, found) = get_elem?-lt (ensure_tier bf) (tier_index bf) (omega (arith, size)) in
    let new = set_positions (positions_in blake3 element tier) tier in
    rw (bloom_insert, found)
      (
        (
          Sized-set 0 (ensure_tier bf) (tier_index bf) tier new sized found
              (length-set_positions (positions_in blake3 element tier) tier),
          length-set (ensure_tier bf) (tier_index bf) new ∙ size ∙ sym (bit_length-tier_index bf),
        ),
        refl,
      )

insert_all-Fits :
    (blake3 : ℕ → Bytes → Bytes) (elements : List Bytes) (bf : BloomFilter)
    → Fits bf
    → Fits (insert_all blake3 elements bf)
      × ((insert_all blake3 elements bf).count ≡ bf.count + length elements)
unfolding insert_all
insert_all-Fits blake3 [] bf h = (h, omega arith)
insert_all-Fits blake3 (e ∷ elements) bf h =
    let (fits, count) = bloom_insert-Fits blake3 e bf h in
    let (fits', count') = insert_all-Fits blake3 elements (bloom_insert blake3 e bf) fits in
    (fits', omega (arith, count, count'))

pub new_filter-Fits : Fits new_filter
unfolding Fits bit_length
new_filter-Fits = (tt, refl)

pub Sized-get :
    (i : ℕ) (tiers : List Bytes) (k : ℕ) (t : Bytes)
    → Sized i tiers
    → get_elem? tiers k ≡ some t
    → length t ≡ 2 * 2 ^ (i + k)
Sized-get i [] k t h e = cc
Sized-get i (x ∷ tiers) zero t h e =
    let same : x ≡ t = cc in let z : i + 0 ≡ i = omega arith in rw z (ap length (sym same) ∙ h.0)
Sized-get i (x ∷ tiers) (suc k) t h e =
    let z : i + suc k ≡ i + 1 + k = omega arith in rw z (Sized-get (i + 1) tiers k t h.1 e)

-- After the insertion of any elements into an empty filter, the count is their number, there is one
-- tier for each bit of the count, and tier k has 2 ^ (k + 1) bytes.
pub insert_all-tiers :
    (blake3 : ℕ → Bytes → Bytes) (elements : List Bytes) (k : ℕ) (tier : Bytes)
    → get_elem? (insert_all blake3 elements new_filter).tiers k ≡ some tier
    → ((insert_all blake3 elements new_filter).count ≡ length elements)
      × (length (insert_all blake3 elements new_filter).tiers ≡ bit_length (length elements))
      × (length tier ≡ 2 * 2 ^ k)
unfolding Fits
insert_all-tiers blake3 elements k tier found =
    let (fits, count) = insert_all-Fits blake3 elements new_filter new_filter-Fits in
    let all : (insert_all blake3 elements new_filter).count ≡ length elements =
      omega (arith, count) in
    (
      all,
      fits.1 ∙ ap bit_length all,
      let z : 0 + k ≡ k = omega arith in Sized-get 0 _ k tier fits.0 found ∙ ap (λ n. 2 * 2 ^ n) z,
    )
