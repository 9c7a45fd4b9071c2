-- ===== src/Communication/Route/Tests.antt =====
-- A route of one-byte keys with buckets of one key.
use lib_py.Base.{ℕ, ◌≤◌, ◌≡◌, refl, true, none, some, List, [], ◌∷◌, length}
use lib_py.Base.Bytes.{bytes_eq}
use lib_py.Base.Bits.{bit_length}
use lib_py.Consensus.Difficulty.{matching_leading_bits, matching_from, xor_bits}
use lib_py.Communication.Route.{
  contains, remove_first, set_bucket, grown, new_route, add_peer, remove_peer,
}
use lib_py.Communication.Route.Buckets.{
  Change, add, remove, changed, change_all, change_all-buckets,
}

abbrev changes : List (Change ℕ)
changes =
    add (1 ∷ []) (some 7)
    ∷ add (128 ∷ []) none
    ∷ add (129 ∷ []) (some 9)
    ∷ remove (1 ∷ [])
    ∷ add (2 ∷ 2 ∷ []) none
    ∷ []

there_run : contains ((change_all changes (new_route (0 ∷ []) 1)).buckets 0) (128 ∷ []) ≡ true
unfolding change_all changed add_peer remove_peer set_bucket grown contains remove_first bytes_eq
    matching_leading_bits matching_from xor_bits bit_length
there_run = refl

change_all-buckets_example :
    (matching_leading_bits (0 ∷ []) (128 ∷ []) ≡ 0)
    × (length ((change_all changes (new_route (0 ∷ []) 1)).buckets 0) ≤ 1)
change_all-buckets_example = change_all-buckets (0 ∷ []) (128 ∷ []) 1 0 changes there_run
