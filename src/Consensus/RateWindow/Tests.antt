-- ===== src/Consensus/RateWindow/Tests.antt =====
-- The statistics of a short chain, and the theorem about a block of it.
use lib_py.Base.{ℕ, ◌+◌, ◌*◌, ◌^◌, ◌≡◌, refl, some, [], ◌∷◌, get_elem?, arith}
use lib_py.Base.Bits.{bit_length}
use lib_py.Consensus.RateWindow.{Delta, update_statistics, window, all_time, seed}
use lib_py.Consensus.RateWindow.History.{span, entry_of, chain_statistics}
use lib_py.Consensus.RateWindow.Windows.{chain_statistics-window}

-- The block at height k brings a fee of k + 1, a stake of 10 and one claim.
abbrev steady : ℕ → Delta
steady k = record { fee = k + 1; stake = 10; claims = 1 }

chain_statistics-steady :
    chain_statistics steady 5
    ≡ (21, 60, 6, 0, 0, 0)
      ∷ (5, 10, 6, 10, 1, 1)
      ∷ (7, 20, 11, 20, 2, 2)
      ∷ (10, 40, 11, 20, 4, 2)
      ∷ []
unfolding chain_statistics update_statistics window all_time seed bit_length
chain_statistics-steady = refl

chain_statistics-window_example :
    get_elem? (chain_statistics steady 5) 2
    ≡ some (entry_of (span steady (1 * 2 ^ 1) (2 ^ 1)) (span steady (2 * 2 ^ 1) 2))
chain_statistics-window_example = chain_statistics-window steady 5 1 1 1 (omega arith) (omega arith)
