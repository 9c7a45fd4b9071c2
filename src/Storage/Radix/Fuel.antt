-- ===== src/Storage/Radix/Fuel.antt =====
-- The fuel of put: one more than the bits of the key is enough.
use lib_py.Base.{
  ℕ, zero, suc, ◌≡◌, refl, Bool, true, false, Option, none, some, List, [], ◌∷◌, length, Bool-cases,
  inl, inr, ◌<◌, ◌≤◌, arith,
}
use lib_py.Base.Bytes.{bytes_eq}
use lib_py.Storage.Radix.{
  Hash, RadixNode, RadixTree, match_prefix, Put, written, index_error, no_root, no_fuel, put_from,
  write_value, split_and_insert, split_parts, common, put_in_radix_tree, zero32, fetch_node, Stack,
  child_of,
}

match_prefix-length :
    (prefix key rest : List Bool) → match_prefix prefix key ≡ some rest → length rest ≤ length key
unfolding match_prefix
match_prefix-length [] key rest e = ground (arith, e)
match_prefix-length (p ∷ prefix) [] rest e = cc
match_prefix-length (true ∷ prefix) (true ∷ key) rest e =
    ground (arith, match_prefix-length prefix key rest e)
match_prefix-length (false ∷ prefix) (false ∷ key) rest e =
    ground (arith, match_prefix-length prefix key rest e)
match_prefix-length (true ∷ prefix) (false ∷ key) rest e = cc
match_prefix-length (false ∷ prefix) (true ∷ key) rest e = cc

-- Whether a put came to an end, or ran out of fuel.
abbrev pub ended : Put → Bool
ended (written tree) = true
ended index_error = true
ended no_root = true
ended no_fuel = false

module _ (node_hash : RadixNode → Hash) (stored : Hash → Option RadixNode) where
  split_parts-ended :
      (tree : RadixTree) (node : RadixNode) (stack : Stack node_hash stored)
      (parts : List Bool × List Bool × List Bool) (value : Hash)
      → ended (split_parts node_hash stored tree node stack parts value) ≡ true
  unfolding split_parts
  split_parts-ended tree node stack (c, [], key) value = refl
  split_parts-ended tree node stack (c, p ∷ suffix, []) value = refl
  split_parts-ended tree node stack (c, p ∷ suffix, b ∷ tail) value = refl

  write_value-ended :
      (tree : RadixTree) (node : RadixNode) (stack : Stack node_hash stored) (value : Hash)
      → ended (write_value node_hash stored tree node stack value) ≡ true
  unfolding write_value
  write_value-ended tree node stack value = ground arith

  -- With this fuel the loop ends on every key that is shorter.
  abbrev Enough : ℕ → Type 0
  Enough fuel =
      (tree : RadixTree) (node : RadixNode) (stack : Stack node_hash stored) (key : List Bool)
      (value : Hash)
      → length key < fuel
      → ended (put_from node_hash stored fuel tree node stack key value) ≡ true

  module _ (fuel : ℕ) (enough : Enough fuel) (tree : RadixTree) (node : RadixNode)
      (stack : Stack node_hash stored) (key : List Bool) (value : Hash) where
    abbrev Ended : Type 0
    Ended = ended (put_from node_hash stored (suc fuel) tree node stack key value) ≡ true

    in_child :
        (b : Bool) (tail : List Bool) (h : Hash) (child : Option RadixNode)
        → length tail < fuel
        → match_prefix node.key key ≡ some (b ∷ tail)
        → child_of b node ≡ some h
        → (fetch_node node_hash stored h tree).0 ≡ child
        → Ended
    unfolding put_from
    in_child b tail h none short e c f = rw (put_from, e, c, f) refl
    in_child b tail h (some n) short e c f = rw (put_from, e, c, f) (enough _ n _ tail value short)

    under_node :
        (b : Bool) (tail : List Bool) (child : Option Hash)
        → length tail < fuel
        → match_prefix node.key key ≡ some (b ∷ tail)
        → child_of b node ≡ child
        → Ended
    unfolding put_from
    under_node b tail none short e c = rw (put_from, e, c) refl
    under_node b tail (some h) short e c =
        in_child b tail h (fetch_node node_hash stored h tree).0 short e c refl

    at_node :
        (m : Option (List Bool)) → length key < suc fuel → match_prefix node.key key ≡ m → Ended
    unfolding put_from split_and_insert
    at_node none short e =
        rw (put_from, e)
          (split_parts-ended tree node stack (common node_hash stored node.key key) value)
    at_node (some []) short e = rw (put_from, e) (write_value-ended tree node stack value)
    at_node (some (b ∷ tail)) short e =
        under_node b tail (child_of b node)
          (ground (arith, match_prefix-length node.key key (b ∷ tail) e)) e refl

  put_from-ended : (fuel : ℕ) → Enough fuel
  put_from-ended zero tree node stack key value short = ground arith
  put_from-ended (suc fuel) tree node stack key value short =
      at_node fuel (put_from-ended fuel) tree node stack key value (match_prefix node.key key) short
        refl

  root-ended :
      (tree : RadixTree) (key : List Bool) (value : Hash) (root : Option Hash)
      → tree.root_hash ≡ root
      → ended (put_in_radix_tree node_hash stored tree key value) ≡ true
  unfolding put_in_radix_tree
  root-ended tree key value none e = rw (put_in_radix_tree, e) refl
  root-ended tree key value (some h) e = elim (Bool-cases (bytes_eq h zero32)) [
    | inl z ↦ rw (put_in_radix_tree, e, z) refl
    | inr z ↦ fetched (fetch_node node_hash stored h tree).0 z refl
  ]
    where
      fetched :
          (n : Option RadixNode)
          → bytes_eq h zero32 ≡ false
          → (fetch_node node_hash stored h tree).0 ≡ n
          → ended (put_in_radix_tree node_hash stored tree key value) ≡ true
      fetched none z f = rw (put_in_radix_tree, e, z, f) refl
      fetched (some n) z f =
          rw (put_in_radix_tree, e, z, f)
            (put_from-ended (suc (length key)) _ n [] key value (omega arith))

-- A put always ends, whatever the dict of nodes holds and the storage gives: in a new tree, in an
-- IndexError or without the node of the root, but never by running out of the fuel of the loop.
pub put_in_radix_tree-ended :
    (node_hash : RadixNode → Hash) (stored : Hash → Option RadixNode) (tree : RadixTree)
    (key : List Bool) (value : Hash)
    → ended (put_in_radix_tree node_hash stored tree key value) ≡ true
put_in_radix_tree-ended node_hash stored tree key value =
    root-ended node_hash stored tree key value tree.root_hash refl
