-- ===== src/Storage/Radix/Prefix.antt =====
-- Keys that are longer or shorter than the path of a node.
use lib_py.Base.{ℕ, suc, ◌≡◌, refl, Bool, true, false, Option, none, some, List, [], ◌∷◌, ◌++◌}
use lib_py.Storage.Radix.{
  Hash, RadixNode, RadixTree, bit_eq, match_prefix, index_error, Stack, common, split_parts,
  split_and_insert, put_from,
}

bit_eq_self : (b : Bool) → bit_eq b b ≡ true
bit_eq_self true = refl
bit_eq_self false = refl

bit_eq→eq : (a b : Bool) → bit_eq a b ≡ true → a ≡ b
bit_eq→eq true true h = refl
bit_eq→eq false false h = refl
bit_eq→eq true false h = cc
bit_eq→eq false true h = cc

match_prefix_short :
    (key : List Bool) (b : Bool) (more : List Bool) → match_prefix (key ++ b ∷ more) key ≡ none
unfolding match_prefix
match_prefix_short [] b more = refl
match_prefix_short (a ∷ key) b more = rw (bit_eq_self a, match_prefix_short key b more) refl

match_prefix_self : (key : List Bool) → match_prefix key key ≡ some []
unfolding match_prefix
match_prefix_self [] = refl
match_prefix_self (a ∷ key) = rw (bit_eq_self a, match_prefix_self key) refl

-- The bits that a key shares with a longer path are the key.
common_short :
    (node_hash : RadixNode → Hash) (stored : Hash → Option RadixNode) (key : List Bool) (b : Bool)
    (more : List Bool)
    → common node_hash stored (key ++ b ∷ more) key ≡ (key, b ∷ more, [])
unfolding common
common_short node_hash stored [] b more = refl
common_short node_hash stored (a ∷ key) b more =
    rw (bit_eq_self a, common_short node_hash stored key b more) refl

-- A key that ends inside the path of a node cannot be put: wherever the walk of `put` has arrived,
-- if the rest of the key is a proper prefix of the path of the node there, `_split_and_insert` reads
-- a bit past the end of the key and raises an IndexError.
pub put_from_short :
    (node_hash : RadixNode → Hash) (stored : Hash → Option RadixNode) (fuel : ℕ) (tree : RadixTree)
    (node : RadixNode) (stack : Stack node_hash stored) (key : List Bool) (b : Bool)
    (more : List Bool) (value : Hash)
    → node.key ≡ key ++ b ∷ more
    → put_from node_hash stored (suc fuel) tree node stack key value ≡ index_error
unfolding put_from split_and_insert split_parts
put_from_short node_hash stored fuel tree node stack key b more value e =
    rw
      (
        put_from,
        e,
        match_prefix_short key b more,
        split_and_insert,
        e,
        common_short node_hash stored key b more,
      )
      refl
