-- ===== src/Consensus/RateWindow/History.antt =====
-- What the statistics are about: the sums of what the blocks of a chain add, over ranges of heights.
use lib_py.Base.{ℕ, zero, suc, ◌+◌, List, []}
use lib_py.Consensus.RateWindow.{Entry, Delta, update_statistics}

abbrev pub none_yet : Delta
none_yet = record { fee = 0; stake = 0; claims = 0 }

abbrev pub add : Delta → Delta → Delta
add a b = record { fee = a.fee + b.fee; stake = a.stake + b.stake; claims = a.claims + b.claims }

-- The sum over the heights lo, lo + 1, … of n blocks.
unfoldable pub span : (ℕ → Delta) → ℕ → ℕ → Delta
span d lo zero = none_yet
span d lo (suc n) = add (span d lo n) (d (lo + n))

-- The entry of a window, from the sum of the complete window before it and of its own blocks.
abbrev pub entry_of : Delta → Delta → Entry
entry_of p c = (p.fee, p.stake, c.fee, c.stake, p.claims, c.claims)

abbrev pub total_entry : Delta → Entry
total_entry t = (t.fee, t.stake, t.claims, 0, 0, 0)

-- The statistics of the block at a height, in a chain whose block k adds d k.
unfoldable pub chain_statistics : (ℕ → Delta) → ℕ → List Entry
chain_statistics d zero = update_statistics zero [] (d zero)
chain_statistics d (suc h) = update_statistics (suc h) (chain_statistics d h) (d (suc h))
