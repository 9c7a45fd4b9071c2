-- ===== src/Storage/Radix/Tests.antt =====
-- Radix trees on small inputs.
use lib_py.Base.{
  suc, ◌≡◌, refl, Bool, true, false, Option, none, some, List, [], if◌then◌else◌, ◌∷◌, ◌++◌,
}
use lib_py.Base.Bytes.{Bytes, bytes_eq}
use lib_py.Storage.Radix.{
  Hash, RadixNode, RadixTree, Put, index_error, written, put_in_radix_tree, put_from,
  get_from_radix_tree, leaf_node, put_in_root, find_node, find_from, fetch_node, nodes_get,
  nodes_put, nodes_pop, replace_node, bubble, branch, common, match_prefix, append_leaf,
  split_and_insert, split_parts, write_value,
}
use lib_py.Storage.Radix.Leaf.{then_put, then_get, get-put-put, bits_eq}
use lib_py.Storage.Radix.Fuel.{ended, put_in_radix_tree-ended}
use lib_py.Storage.Radix.Prefix.{put_from_short}

bits_of : List Bool → Bytes
bits_of [] = []
bits_of (true ∷ bits) = 1 ∷ bits_of bits
bits_of (false ∷ bits) = 0 ∷ bits_of bits

abbrev part : Option Hash → Bytes
part none = 2 ∷ []
part (some h) = 3 ∷ h

abbrev written_out : RadixNode → Hash
written_out n = 4 ∷ bits_of n.key ++ part n.value ++ part n.child_0 ++ part n.child_1

abbrev nothing : Hash → Option RadixNode
nothing h = none

abbrev empty : RadixTree
empty = record { nodes = []; root_hash = none }

-- The keys "A" and "AB", and one that differs from "A" in its first bit.
abbrev key_a : List Bool
key_a = false ∷ true ∷ false ∷ false ∷ false ∷ false ∷ false ∷ true ∷ []

abbrev key_b : List Bool
key_b = false ∷ true ∷ false ∷ false ∷ false ∷ false ∷ true ∷ false ∷ []

abbrev key_high : List Bool
key_high = true ∷ true ∷ false ∷ false ∷ false ∷ false ∷ false ∷ true ∷ []

abbrev two_keys : Put
two_keys =
    then_put written_out nothing (then_put written_out nothing (written empty) key_a (7 ∷ [])) key_b
      (8 ∷ [])

first_of_two : then_get written_out nothing two_keys key_a ≡ some (7 ∷ [])
unfolding put_in_radix_tree put_in_root put_from get_from_radix_tree find_node find_from fetch_node
    nodes_get nodes_put nodes_pop replace_node bubble branch common match_prefix append_leaf
    split_and_insert split_parts write_value bits_of bytes_eq
first_of_two = refl

second_of_two : then_get written_out nothing two_keys key_b ≡ some (8 ∷ [])
unfolding put_in_radix_tree put_in_root put_from get_from_radix_tree find_node find_from fetch_node
    nodes_get nodes_put nodes_pop replace_node bubble branch common match_prefix append_leaf
    split_and_insert split_parts write_value bits_of bytes_eq
second_of_two = refl

-- Two leaves with the same rest of the key and the same value are one entry of the dict: when one of
-- the keys is written again, the other is lost.
abbrev shared_leaf : Put
shared_leaf =
    then_put written_out nothing (then_put written_out nothing (written empty) key_a (7 ∷ []))
      key_high (7 ∷ [])

before_the_write : then_get written_out nothing shared_leaf key_high ≡ some (7 ∷ [])
unfolding put_in_radix_tree put_in_root put_from get_from_radix_tree find_node find_from fetch_node
    nodes_get nodes_put nodes_pop replace_node bubble branch common match_prefix append_leaf
    split_and_insert split_parts write_value bits_of bytes_eq
before_the_write = refl

lost_by_the_write :
    then_get written_out nothing (then_put written_out nothing shared_leaf key_a (8 ∷ [])) key_high
    ≡ none
unfolding put_in_radix_tree put_in_root put_from get_from_radix_tree find_node find_from fetch_node
    nodes_get nodes_put nodes_pop replace_node bubble branch common match_prefix append_leaf
    split_and_insert split_parts write_value bits_of bytes_eq
lost_by_the_write = refl

abbrev long_leaf : RadixNode
long_leaf = leaf_node written_out nothing (key_a ++ key_b) (7 ∷ [])

abbrev tree_of_long : RadixTree
tree_of_long = record {
  nodes = (written_out long_leaf, long_leaf) ∷ [];
  root_hash = some (written_out long_leaf);
}

put_from_short_example :
    put_from written_out nothing (suc 8) tree_of_long long_leaf [] key_a (8 ∷ []) ≡ index_error
put_from_short_example =
    put_from_short written_out nothing 8 tree_of_long long_leaf [] key_a false
      (true ∷ false ∷ false ∷ false ∷ false ∷ true ∷ false ∷ []) (8 ∷ []) refl

get-put-put_example :
    (then_get written_out nothing
        (put_in_radix_tree written_out nothing
          (record { nodes = []; root_hash = none })
          key_a
          (7 ∷ []))
        key_b
      ≡ (if bits_eq key_a key_b then some (7 ∷ []) else none))
    × (then_get written_out nothing
          (then_put written_out nothing
            (put_in_radix_tree written_out nothing
              (record { nodes = []; root_hash = none })
              key_a
              (7 ∷ []))
            key_a
            (8 ∷ []))
          key_b
        ≡ (if bits_eq key_a key_b then some (8 ∷ []) else none))
unfolding bits_of bytes_eq
get-put-put_example = get-put-put written_out nothing [] key_a key_b (7 ∷ []) (8 ∷ []) refl refl

put_in_radix_tree-ended_example :
    ended (put_in_radix_tree written_out nothing tree_of_long (key_b ++ key_a) (8 ∷ [])) ≡ true
put_in_radix_tree-ended_example =
    put_in_radix_tree-ended written_out nothing tree_of_long (key_b ++ key_a) (8 ∷ [])
