-- ===== src/Crypto/Bloom/Tests.antt =====
-- A filter of three elements under a toy digest.
use lib_py.Base.{ℕ, ◌≡◌, refl, true, List, [], ◌∷◌, replicate}
use lib_py.Base.Bytes.{Bytes, from_bytes_big}
use lib_py.Crypto.Bloom.{
  new_filter, insert_all, bloom_insert, bloom_test, positions_in, bloom_positions, bloom_digest,
  set_positions, set_position, set_bit, ensure_tier, tier_index, add_tiers, find_tier, new_tier,
}
use lib_py.Crypto.Bloom.Present.{bloom_test-insert_all}

abbrev repeated : ℕ → Bytes → Bytes
repeated n [] = replicate n 0
repeated n (b ∷ m) = replicate n b

abbrev elements : List Bytes
elements = (1 ∷ []) ∷ (2 ∷ []) ∷ (3 ∷ []) ∷ []

filter_run :
    (insert_all repeated elements new_filter).tiers ≡ (2 ∷ 0 ∷ []) ∷ (12 ∷ 0 ∷ 0 ∷ 0 ∷ []) ∷ []
unfolding insert_all bloom_insert positions_in bloom_positions bloom_digest set_positions
    set_position set_bit ensure_tier tier_index add_tiers find_tier new_tier from_bytes_big
filter_run = refl

bloom_test-insert_all_example :
    bloom_test repeated
      (insert_all repeated ((1 ∷ []) ∷ (2 ∷ []) ∷ (3 ∷ []) ∷ []) new_filter)
      (2 ∷ [])
    ≡ true
bloom_test-insert_all_example =
    bloom_test-insert_all repeated (2 ∷ []) ((1 ∷ []) ∷ []) ((3 ∷ []) ∷ [])
