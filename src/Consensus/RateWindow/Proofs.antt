-- ===== src/Consensus/RateWindow/Proofs.antt =====
-- One block keeps every window of the statistics equal to the sums over its ranges.
use native.Mathlib.Nat.{mul-add-mod_self_right, mod-eq_of_lt, mod_self}
use lib_py.Base.{
  ℕ, zero, suc, ◌+◌, ◌-◌, ◌*◌, ◌%◌, ◌^◌, ◌≤◌, ◌<◌, ◌≡◌, refl, subst, ◌∙◌, none, some, List, [], ◌∷◌,
  arith, length, get_elem?,
}
use lib_py.Base.Bits.{bit_length, bit_length-le}
use lib_py.Consensus.RateWindow.{Entry, Delta, seed, window}
use lib_py.Consensus.RateWindow.History.{span, entry_of, total_entry}

-- The remainder that the code tests, at a height split by the size of the window.
mod_of_split : (q size r : ℕ) → r < size → (q * size + r) % size ≡ r
mod_of_split q size r h = mul-add-mod_self_right q size r ∙ mod-eq_of_lt h

get_elem?-beyond : (l : List Entry) (i : ℕ) → length l ≤ i → get_elem? l i ≡ none
get_elem?-beyond [] i h = refl
get_elem?-beyond (x ∷ l) zero h = elim h [ ]
get_elem?-beyond (x ∷ l) (suc i) h = get_elem?-beyond l i (omega arith)

-- What one block makes of a window, in the three cases of its height.
module _ (d : ℕ → Delta) (size : ℕ) (prev : List Entry) where
  window_grows :
      (q r : ℕ)
      → suc r < size
      → window
          (suc q * size + suc r)
          size
          prev
          (d (suc q * size + suc r))
          (some (entry_of (span d (q * size) size) (span d (suc q * size) (suc r))))
        ≡ entry_of (span d (q * size) size) (span d (suc q * size) (suc (suc r)))
  unfolding window span
  window_grows q r h = ground (arith, mod_of_split (suc q) size (suc r) h)

  window_turns :
      (q : ℕ)
      → 0 < size
      → window
          (suc (suc q) * size + 0)
          size
          prev
          (d (suc (suc q) * size + 0))
          (some (entry_of (span d (q * size) size) (span d (suc q * size) size)))
        ≡ entry_of (span d (suc q * size) size) (span d (suc (suc q) * size) 1)
  unfolding window span
  window_turns q h = ground (arith, mod_of_split (suc (suc q)) size 0 h)

window_born :
    (d : ℕ → Delta) (h : ℕ) (rest : List Entry)
    → window (suc h) (suc h) (total_entry (span d 0 (suc h)) ∷ rest) (d (suc h)) none
      ≡ entry_of (span d 0 (suc h)) (span d (suc h) 1)
unfolding window seed span
window_born d h rest = ground (arith, mod_self (suc h))

-- What holds of the statistics at a height.
pub record IsWindowed (d : ℕ → Delta) (h : ℕ) (stats : List Entry) : Type 0 where
  pub totals : get_elem? stats 0 ≡ some (total_entry (span d 0 (suc h)))
  pub count : length stats ≡ suc (bit_length h)
  pub windows :
      (i q r : ℕ)
      → h ≡ suc q * 2 ^ i + r
      → r < 2 ^ i
      → get_elem? stats (suc i)
        ≡ some (entry_of (span d (q * 2 ^ i) (2 ^ i)) (span d (suc q * 2 ^ i) (suc r)))

-- The list starts with the totals.
pub starts_with_totals :
    (l : List Entry) {e : Entry} → get_elem? l 0 ≡ some e → (rest : List Entry) × (l ≡ e ∷ rest)
starts_with_totals [] p = cc
starts_with_totals (x ∷ rest) p = (rest, cc)

-- The window i of the next block, from the windows of this one.
module _ (d : ℕ → Delta) (h : ℕ) (prev : List Entry) (w : IsWindowed d h prev) where
  pub next_window :
      (i q r : ℕ)
      → suc h ≡ suc q * 2 ^ i + r
      → r < 2 ^ i
      → window (suc h) (2 ^ i) prev (d (suc h)) (get_elem? prev (suc i))
        ≡ entry_of (span d (q * 2 ^ i) (2 ^ i)) (span d (suc q * 2 ^ i) (suc r))
  next_window i q (suc r) e lt =
      rw (e, w.windows i q r (omega arith) (omega arith)) (window_grows d (2 ^ i) prev q r lt)
  next_window i (suc q) zero e lt =
      let full : suc (2 ^ i - 1) ≡ 2 ^ i = omega arith in
      let old : get_elem? prev (suc i)
          ≡ some (entry_of (span d (q * 2 ^ i) (2 ^ i)) (span d (suc q * 2 ^ i) (2 ^ i))) =
        subst
          (λ n.
            get_elem? prev (suc i)
            ≡ some (entry_of (span d (q * 2 ^ i) (2 ^ i)) (span d (suc q * 2 ^ i) n)))
          full (w.windows i q (2 ^ i - 1) (omega arith) (omega arith)) in
      rw (e, old) (window_turns d (2 ^ i) prev q lt)
  next_window i zero zero e lt =
      let born : 2 ^ i ≡ suc h = omega arith in
      let (rest, starts) = starts_with_totals prev w.totals in
      let fresh : get_elem? prev (suc i) ≡ none =
        get_elem?-beyond prev (suc i) (omega (arith, w.count, bit_length-le h i (omega arith))) in
      let at_zero : 0 * suc h ≡ 0 = omega arith in
      let at_one : 1 * suc h ≡ suc h = omega arith in
      rw (fresh, born, starts, at_zero, at_one) (window_born d h rest)
