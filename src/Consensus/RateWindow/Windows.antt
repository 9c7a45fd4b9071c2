-- ===== src/Consensus/RateWindow/Windows.antt =====
-- The statistics of a chain are the sums that they stand for.
use lib_py.Base.{
  ℕ, zero, suc, ◌+◌, ◌*◌, ◌^◌, ◌≤◌, ◌<◌, ◌≡◌, refl, ap, ◌∙◌, some, List, [], ◌∷◌, arith, length,
  length-map, length-range_from, get_elem?, get_elem?-map-range, range_from,
}
use lib_py.Base.Bits.{bit_length, lt_bit_length, pow_pos}
use lib_py.Consensus.RateWindow.{Entry, Delta, all_time, update_statistics}
use lib_py.Consensus.RateWindow.History.{span, entry_of, total_entry, chain_statistics}
use lib_py.Consensus.RateWindow.Proofs.{IsWindowed, starts_with_totals, next_window}

-- The totals go on from the first entry.
all_time-span :
    (d : ℕ → Delta) (h : ℕ) (rest : List Entry)
    → all_time (total_entry (span d 0 (suc h)) ∷ rest) (d (suc h))
      ≡ total_entry (span d 0 (suc (suc h)))
unfolding all_time span
all_time-span d h rest = ground arith

in_reach : (h i q r : ℕ) → h ≡ suc q * 2 ^ i + r → 2 ^ i ≤ h
in_reach h i q r e = grind arith

-- `update_statistics` takes the windows of one height to the windows of the next.
update_statistics-IsWindowed :
    (d : ℕ → Delta) (h : ℕ) (prev : List Entry)
    → IsWindowed d h prev
    → IsWindowed d (suc h) (update_statistics (suc h) prev (d (suc h)))
unfolding update_statistics
update_statistics-IsWindowed d h prev w = record {
  totals =
      let (rest, starts) = starts_with_totals prev w.totals in
      rw starts (ap some (all_time-span d h rest));
  count = ap suc (length-map (range_from 0 (bit_length (suc h))) _ ∙ length-range_from 0 _);
  windows = λ i q r e lt.
      get_elem?-map-range _ _ i (lt_bit_length (suc h) i (in_reach (suc h) i q r e))
      ∙ ap some (next_window d h prev w i q r e lt);
}

update_statistics-IsWindowed_start :
    (d : ℕ → Delta) → IsWindowed d zero (update_statistics zero [] (d zero))
unfolding update_statistics all_time span bit_length
update_statistics-IsWindowed_start d = record {
  totals = ground arith;
  count = refl;
  windows = λ i q r e lt. absurd (grind (arith, in_reach 0 i q r e, pow_pos i));
}

chain_statistics-IsWindowed : (d : ℕ → Delta) (h : ℕ) → IsWindowed d h (chain_statistics d h)
unfolding chain_statistics
chain_statistics-IsWindowed d zero = update_statistics-IsWindowed_start d
chain_statistics-IsWindowed d (suc h) =
    update_statistics-IsWindowed d h (chain_statistics d h) (chain_statistics-IsWindowed d h)

-- In a chain whose block k adds d k, the first entry of the statistics of the block at height h
-- holds the sums over all blocks 0 to h, and there is one more entry for each bit of h.
pub chain_statistics-totals :
    (d : ℕ → Delta) (h : ℕ)
    → (get_elem? (chain_statistics d h) 0 ≡ some (total_entry (span d 0 (suc h))))
      × (length (chain_statistics d h) ≡ suc (bit_length h))
chain_statistics-totals d h = let w = chain_statistics-IsWindowed d h in (w.totals, w.count)

-- In a chain whose block k adds d k, the entry at position i + 1 of the statistics of the block at
-- height (q + 1) * 2 ^ i + r, with r < 2 ^ i, holds the sums over the 2 ^ i heights from q * 2 ^ i
-- (the last complete window) and over the r + 1 heights from (q + 1) * 2 ^ i (the current one).
pub chain_statistics-window :
    (d : ℕ → Delta) (h i q r : ℕ)
    → h ≡ suc q * 2 ^ i + r
    → r < 2 ^ i
    → get_elem? (chain_statistics d h) (suc i)
      ≡ some (entry_of (span d (q * 2 ^ i) (2 ^ i)) (span d (suc q * 2 ^ i) (suc r)))
chain_statistics-window d h i q r e lt = (chain_statistics-IsWindowed d h).windows i q r e lt
