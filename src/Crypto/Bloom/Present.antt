-- ===== src/Crypto/Bloom/Present.antt =====
-- A filter has no false negatives: `bloom_test` finds every element that was inserted.
use native.Mathlib.Nat.{mod-lt}
use lib_py.Base.{
  ℕ, zero, suc, ◌+◌, ◌*◌, ◌%◌, ◌^◌, ◌<◌, ◌≡◌, refl, ap, true, some, List, [], ◌∷◌, ◌++◌, map,
  length, get_elem?, set, take, drop, range_from, arith, get_elem?-lt,
}
use lib_py.Base.Bits.{pow_pos}
use lib_py.Base.Bytes.{Bytes, from_bytes_big}
use lib_py.Crypto.Bloom.{
  BloomFilter, new_filter, bloom_positions, add_tiers, new_tier, tier_index, ensure_tier,
  positions_in, bloom_insert, insert_all, set_positions, test_tiers, bloom_test, bloom_digest,
  slice, position_count,
}
use lib_py.Crypto.Bloom.Bits.{
  AllBelow, length-set_positions, has_positions-set_positions, has_positions-set_positions_keeps,
}
use lib_py.Crypto.Bloom.Tiers.{
  Fits, ensure_tier-Sized, bloom_insert-Fits, new_filter-Fits, Sized-get,
}

map_mod-AllBelow :
    (f : ℕ → ℕ) (bits : ℕ) (l : List ℕ) → 0 < bits → AllBelow bits (map (λ i. f i % bits) l)
map_mod-AllBelow f bits [] h = tt
map_mod-AllBelow f bits (x ∷ l) h = (mod-lt (f x) h, map_mod-AllBelow f bits l h)

module _ (blake3 : ℕ → Bytes → Bytes) (e : Bytes) where
  positions_in-AllBelow :
      (tier : Bytes) → 0 < length tier → AllBelow (length tier * 8) (positions_in blake3 e tier)
  unfolding positions_in bloom_positions
  positions_in-AllBelow tier h =
      map_mod-AllBelow (λ i. from_bytes_big (take slice (drop (slice * i) (bloom_digest blake3 e))))
        (length tier * 8) (range_from 0 position_count) (omega arith)

  -- The positions of an element depend only on the size of the tier.
  positions_in-set_positions :
      (ps : List ℕ) (tier : Bytes)
      → positions_in blake3 e (set_positions ps tier) ≡ positions_in blake3 e tier
  unfolding positions_in
  positions_in-set_positions ps tier =
      ap (λ n. bloom_positions (bloom_digest blake3 e) (n * 8)) (length-set_positions ps tier)

  test_tiers-append :
      (tiers more : List Bytes)
      → test_tiers blake3 e tiers ≡ true
      → test_tiers blake3 e (tiers ++ more) ≡ true
  unfolding test_tiers
  test_tiers-append [] more h = cc
  test_tiers-append (t ∷ tiers) more h = ground (arith, test_tiers-append tiers more)

  test_tiers-add_tiers :
      (m : ℕ) (tiers : List Bytes)
      → test_tiers blake3 e tiers ≡ true
      → test_tiers blake3 e (add_tiers m tiers) ≡ true
  unfolding add_tiers
  test_tiers-add_tiers zero tiers h = h
  test_tiers-add_tiers (suc m) tiers h =
      test_tiers-add_tiers m _ (test_tiers-append tiers (new_tier (length tiers) ∷ []) h)

  test_tiers-set :
      (tiers : List Bytes) (k : ℕ) (tier : Bytes) (ps : List ℕ)
      → get_elem? tiers k ≡ some tier
      → test_tiers blake3 e tiers ≡ true
      → test_tiers blake3 e (set tiers k (set_positions ps tier)) ≡ true
  unfolding test_tiers
  test_tiers-set [] k tier ps found h = cc
  test_tiers-set (t ∷ tiers) zero tier ps found h =
      let same : t ≡ tier = cc in
      rw (positions_in-set_positions ps tier)
        (grind (arith, has_positions-set_positions_keeps (positions_in blake3 e tier) ps tier))
  test_tiers-set (t ∷ tiers) (suc k) tier ps found h =
      ground (arith, test_tiers-set tiers k tier ps found)

  test_tiers-set_here :
      (tiers : List Bytes) (k : ℕ) (tier : Bytes)
      → get_elem? tiers k ≡ some tier
      → 0 < length tier
      → test_tiers blake3 e (set tiers k (set_positions (positions_in blake3 e tier) tier)) ≡ true
  unfolding test_tiers
  test_tiers-set_here [] k tier found h = cc
  test_tiers-set_here (t ∷ tiers) zero tier found h =
      rw
        (
          positions_in-set_positions (positions_in blake3 e tier) tier,
          has_positions-set_positions (positions_in blake3 e tier) tier
              (positions_in-AllBelow tier h),
        )
        refl
  test_tiers-set_here (t ∷ tiers) (suc k) tier found h =
      ground (arith, test_tiers-set_here tiers k tier found h)

  -- An insertion keeps what the test finds.
  bloom_insert_keeps :
      (x : Bytes) (bf : BloomFilter)
      → Fits bf
      → test_tiers blake3 e bf.tiers ≡ true
      → test_tiers blake3 e (bloom_insert blake3 x bf).tiers ≡ true
  unfolding bloom_insert ensure_tier
  bloom_insert_keeps x bf fits h =
      let (sized, size) = ensure_tier-Sized bf fits in
      let (tier, found) = get_elem?-lt (ensure_tier bf) (tier_index bf) (omega (arith, size)) in
      rw (bloom_insert, found)
        (test_tiers-set (ensure_tier bf) (tier_index bf) tier (positions_in blake3 x tier) found
          (test_tiers-add_tiers _ bf.tiers h))

  bloom_insert_finds :
      (bf : BloomFilter) → Fits bf → test_tiers blake3 e (bloom_insert blake3 e bf).tiers ≡ true
  unfolding bloom_insert
  bloom_insert_finds bf fits =
      let (sized, size) = ensure_tier-Sized bf fits in
      let (tier, found) = get_elem?-lt (ensure_tier bf) (tier_index bf) (omega (arith, size)) in
      let wide : length tier ≡ 2 * 2 ^ (0 + tier_index bf) =
        Sized-get 0 (ensure_tier bf) (tier_index bf) tier sized found in
      rw (bloom_insert, found)
        (test_tiers-set_here (ensure_tier bf) (tier_index bf) tier found
          (omega (arith, wide, pow_pos (0 + tier_index bf))))

  insert_all_keeps :
      (after : List Bytes) (bf : BloomFilter)
      → Fits bf
      → test_tiers blake3 e bf.tiers ≡ true
      → test_tiers blake3 e (insert_all blake3 after bf).tiers ≡ true
  unfolding insert_all
  insert_all_keeps [] bf fits h = h
  insert_all_keeps (x ∷ after) bf fits h =
      insert_all_keeps after (bloom_insert blake3 x bf) (bloom_insert-Fits blake3 x bf fits).0
        (bloom_insert_keeps x bf fits h)

  insert_all_finds :
      (before after : List Bytes) (bf : BloomFilter)
      → Fits bf
      → test_tiers blake3 e (insert_all blake3 (before ++ e ∷ after) bf).tiers ≡ true
  unfolding insert_all
  insert_all_finds [] after bf fits =
      insert_all_keeps after (bloom_insert blake3 e bf) (bloom_insert-Fits blake3 e bf fits).0
        (bloom_insert_finds bf fits)
  insert_all_finds (x ∷ before) after bf fits =
      insert_all_finds before after (bloom_insert blake3 x bf)
        (bloom_insert-Fits blake3 x bf fits).0

-- `bloom_test` finds an element among those that were inserted into an empty filter, whatever was
-- inserted before and after it.
pub bloom_test-insert_all :
    (blake3 : ℕ → Bytes → Bytes) (element : Bytes) (before after : List Bytes)
    → bloom_test blake3 (insert_all blake3 (before ++ element ∷ after) new_filter) element ≡ true
unfolding bloom_test
bloom_test-insert_all blake3 element before after =
    insert_all_finds blake3 element before after new_filter new_filter-Fits
