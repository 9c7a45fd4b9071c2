-- ===== src/Consensus/RateWindow.antt =====
-- The chain statistics: `update_statistics` of src/astreum/consensus/block/rate_window.py.
-- The fees, stakes and claims of a block are sums of numbers that are not negative, and the code
-- only adds them, so they are natural numbers. `prev_statistics` is a list, [] for None.
pub mod History
mod Proofs
pub mod Windows
mod Tests
use lib_py.Base.{
  ℕ, zero, suc, ◌+◌, ◌%◌, ◌^◌, Option, none, some, List, [], ◌∷◌, map, ◌&&◌, ltb, ◌==◌,
  if◌then◌else◌, get_elem?, range_from,
}
use lib_py.Base.Bits.{bit_length}

-- Range 0 holds (fee, stake, claims, 0, 0, 0); the others hold
-- (prev_fee, prev_stake, curr_fee, curr_stake, prev_claims, curr_claims).
abbrev pub Entry : Type 0
Entry = ℕ × ℕ × ℕ × ℕ × ℕ × ℕ

-- What one block adds: `delta_fee`, `delta_stake`, `delta_claims`.
pub record Delta : Type 0 where
  pub fee : ℕ
  pub stake : ℕ
  pub claims : ℕ

-- `prev_statistics[0][:3]`, or zeros.
abbrev totals : List Entry → Delta
totals [] = record { fee = 0; stake = 0; claims = 0 }
totals ((fee, stake, claims, _, _, _) ∷ rest) = record { fee = fee; stake = stake; claims = claims }

-- What a window that is born at this height holds of the past.
seed : ℕ → ℕ → List Entry → Delta
seed height size [] = record { fee = 0; stake = 0; claims = 0 }
seed height size (e ∷ rest) =
    if height == size then totals (e ∷ rest) else record { fee = 0; stake = 0; claims = 0 }

-- One window: `none` is a new entry, and the test is that a window of this size is complete.
pub window : ℕ → ℕ → List Entry → Delta → Option Entry → Entry
window height size prev d none =
    let p = seed height size prev in
    if height % size == 0 && ltb 0 height
    then (p.fee, p.stake, d.fee, d.stake, p.claims, d.claims)
    else (p.fee, p.stake, 0 + d.fee, 0 + d.stake, p.claims, 0 + d.claims)
window height size prev d (some (pf, ps, cf, cs, pc, cc)) =
    if height % size == 0 && ltb 0 height
    then (cf, cs, d.fee, d.stake, cc, d.claims)
    else (pf, ps, cf + d.fee, cs + d.stake, pc, cc + d.claims)

-- Range 0: the totals of the chain.
pub all_time : List Entry → Delta → Entry
all_time prev d =
    let t = totals prev in (t.fee + d.fee, t.stake + d.stake, t.claims + d.claims, 0, 0, 0)

-- Position i + 1 holds the window of 2 ^ i blocks, for each i below the bit length of the height.
unfoldable pub update_statistics : ℕ → List Entry → Delta → List Entry
update_statistics height prev d =
    all_time prev d
    ∷ map (λ i. window height (2 ^ i) prev d (get_elem? prev (suc i)))
        (range_from 0 (bit_length height))
