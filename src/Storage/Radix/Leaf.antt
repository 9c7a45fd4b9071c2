-- ===== src/Storage/Radix/Leaf.antt =====
-- A radix tree of one key, as `put` makes it of an empty tree.
use lib_py.Base.{
  ℕ, suc, ◌≡◌, refl, ◌∙◌, Bool, true, false, Option, none, some, List, [], ◌∷◌, length,
  if◌then◌else◌, Bool-cases, inl, inr,
}
use lib_py.Base.Bytes.{bytes_eq, bytes_eq_self, bytes_eq→eq}
use lib_py.Storage.Radix.{
  Hash, RadixNode, RadixTree, Nodes, nodes_get, nodes_put, nodes_pop, zero32, bit_eq, match_prefix,
  Put, written, index_error, no_root, no_fuel, put_from, write_value, replace_node, bubble,
  put_in_radix_tree, put_in_root, leaf_node, fetch_node, find_from, find_node, get_from_radix_tree,
  value_of,
}

unfoldable pub bits_eq : List Bool → List Bool → Bool
bits_eq [] [] = true
bits_eq [] (b ∷ other) = false
bits_eq (a ∷ key) [] = false
bits_eq (a ∷ key) (b ∷ other) = let rest = bits_eq key other in if bit_eq a b then rest else false

abbrev whole : Option (List Bool) → Bool
whole none = false
whole (some []) = true
whole (some (b ∷ rest)) = false

match_prefix-bits_eq : (key other : List Bool) → whole (match_prefix key other) ≡ bits_eq key other
unfolding match_prefix bits_eq
match_prefix-bits_eq [] [] = refl
match_prefix-bits_eq [] (b ∷ other) = refl
match_prefix-bits_eq (a ∷ key) [] = refl
match_prefix-bits_eq (true ∷ key) (true ∷ other) = match_prefix-bits_eq key other
match_prefix-bits_eq (false ∷ key) (false ∷ other) = match_prefix-bits_eq key other
match_prefix-bits_eq (true ∷ key) (false ∷ other) = refl
match_prefix-bits_eq (false ∷ key) (true ∷ other) = refl

-- What put and get do after a put, where it did not raise.
abbrev pub then_put : (RadixNode → Hash) → (Hash → Option RadixNode) → Put → List Bool → Hash → Put
then_put node_hash stored (written tree) key value =
    put_in_radix_tree node_hash stored tree key value
then_put node_hash stored index_error key value = index_error
then_put node_hash stored no_root key value = no_root
then_put node_hash stored no_fuel key value = no_fuel

abbrev pub then_get : (RadixNode → Hash) → (Hash → Option RadixNode) → Put → List Bool → Option Hash
then_get node_hash stored (written tree) key = get_from_radix_tree node_hash stored tree key
then_get node_hash stored index_error key = none
then_get node_hash stored no_root key = none
then_get node_hash stored no_fuel key = none

match_prefix_self : (key : List Bool) → match_prefix key key ≡ some []
unfolding match_prefix
match_prefix_self [] = refl
match_prefix_self (true ∷ key) = match_prefix_self key
match_prefix_self (false ∷ key) = match_prefix_self key

module _ (node_hash : RadixNode → Hash) (stored : Hash → Option RadixNode) where
  abbrev leaf : List Bool → Hash → RadixNode
  leaf = leaf_node node_hash stored

  abbrev answer : Bool → Hash → Option Hash
  answer b value = if b then some value else none

  -- The end of a walk that has come to a leaf.
  find_from-step :
      (fuel : ℕ) (tree : RadixTree) (key other : List Bool) (value : Hash) (m : Option (List Bool))
      → match_prefix key other ≡ m
      → value_of node_hash stored
          (find_from node_hash stored (suc fuel) tree (leaf key value) other).0
        ≡ answer (whole m) value
  unfolding find_from
  find_from-step fuel tree key other value none e = rw (find_from, e) refl
  find_from-step fuel tree key other value (some []) e = rw (find_from, e) refl
  find_from-step fuel tree key other value (some (true ∷ rest)) e = rw (find_from, e) refl
  find_from-step fuel tree key other value (some (false ∷ rest)) e = rw (find_from, e) refl

  find_from-leaf :
      (fuel : ℕ) (tree : RadixTree) (key other : List Bool) (value : Hash)
      → value_of node_hash stored
          (find_from node_hash stored (suc fuel) tree (leaf key value) other).0
        ≡ answer (bits_eq key other) value
  find_from-leaf fuel tree key other value =
      find_from-step fuel tree key other value (match_prefix key other) refl
      ∙ rw (match_prefix-bits_eq key other) refl

  abbrev headed : Hash → RadixNode → Nodes → RadixTree
  headed h n rest = record { nodes = (h, n) ∷ rest; root_hash = some h }

  fetch_node-head :
      (h : Hash) (n : RadixNode) (rest : Nodes)
      → fetch_node node_hash stored h (headed h n rest) ≡ (some n, headed h n rest)
  unfolding fetch_node nodes_get
  fetch_node-head h n rest = rw (fetch_node, nodes_get, bytes_eq_self h) refl

  find_node-head :
      (h : Hash) (n : RadixNode) (rest : Nodes) (key : List Bool)
      → bytes_eq h zero32 ≡ false
      → find_node node_hash stored (headed h n rest) key
        ≡ find_from node_hash stored (suc (length key)) (headed h n rest) n key
  unfolding find_node
  find_node-head h n rest key nonzero =
      rw (nonzero, fetch_node-head h n rest, fetch_node-head h n rest) refl

  get-headed :
      (rest : Nodes) (key other : List Bool) (value : Hash)
      → bytes_eq (node_hash (leaf key value)) zero32 ≡ false
      → get_from_radix_tree node_hash stored
          (headed (node_hash (leaf key value)) (leaf key value) rest)
          other
        ≡ answer (bits_eq key other) value
  unfolding get_from_radix_tree
  get-headed rest key other value nonzero =
      rw (find_node-head (node_hash (leaf key value)) (leaf key value) rest other nonzero) (
        find_from-leaf (length other) (headed (node_hash (leaf key value)) (leaf key value) rest)
          key other value)

  put_in_radix_tree-headed :
      (h : Hash) (n : RadixNode) (rest : Nodes) (key : List Bool) (value : Hash)
      → bytes_eq h zero32 ≡ false
      → put_in_radix_tree node_hash stored (headed h n rest) key value
        ≡ put_from node_hash stored (suc (length key)) (headed h n rest) n [] key value
  unfolding put_in_radix_tree
  put_in_radix_tree-headed h n rest key value nonzero =
      rw (nonzero, fetch_node-head h n rest, fetch_node-head h n rest) refl

  put_from_again :
      (fuel : ℕ) (rest : Nodes) (key other : List Bool) (old value : Hash)
      → bytes_eq (node_hash (leaf key old)) zero32 ≡ false
      → bytes_eq (node_hash (leaf key value)) zero32 ≡ false
      → then_get node_hash stored
          (put_from node_hash stored
            (suc fuel)
            (headed (node_hash (leaf key old)) (leaf key old) rest)
            (leaf key old)
            []
            key
            value)
          other
        ≡ answer (bits_eq key other) value
  unfolding put_from write_value replace_node bubble nodes_put
  put_from_again fuel rest key other old value nonzero_old nonzero =
      elim (Bool-cases (bytes_eq old value)) [
        | inl same ↦
            rw (put_from, match_prefix_self key, same)
              (rw⁻¹ (bytes_eq→eq old value same) (get-headed rest key other old nonzero_old))
        | inr differ ↦
            rw (put_from, match_prefix_self key, differ) (get-headed _ key other value nonzero)
      ]

-- What `put` writes into a tree without a root is found under its key and under no other, and a second
-- `put` of the key replaces the value, whatever the dict of nodes holds and the storage gives, where
-- neither leaf has the hash that stands for no tree.
pub get-put-put :
    (node_hash : RadixNode → Hash) (stored : Hash → Option RadixNode) (nodes : Nodes)
    (key other : List Bool) (old value : Hash)
    → bytes_eq (node_hash (leaf_node node_hash stored key old)) zero32 ≡ false
    → bytes_eq (node_hash (leaf_node node_hash stored key value)) zero32 ≡ false
    → (then_get node_hash stored
          (put_in_radix_tree node_hash stored (record { nodes = nodes; root_hash = none }) key old)
          other
        ≡ (if bits_eq key other then some old else none))
      × (then_get node_hash stored
            (then_put node_hash stored
              (put_in_radix_tree node_hash stored
                (record { nodes = nodes; root_hash = none })
                key
                old)
              key
              value)
            other
          ≡ (if bits_eq key other then some value else none))
unfolding put_in_radix_tree put_in_root nodes_put
get-put-put node_hash stored nodes key other old value nonzero_old nonzero = (
  get-headed node_hash stored _ key other old nonzero_old,
  rw
      (put_in_radix_tree-headed node_hash stored _ (leaf_node node_hash stored key old)
        (nodes_pop (node_hash (leaf_node node_hash stored key old)) nodes) key value nonzero_old)
      (put_from_again node_hash stored (length key) _ key other old value nonzero_old nonzero),
)
