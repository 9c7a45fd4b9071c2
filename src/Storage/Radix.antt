-- ===== src/Storage/Radix.antt =====
-- Radix trees: src/astreum/storage/radix. A key is the list of its bits, with the padding of the last
-- byte left out; values are hashes. The blocks that tell a fetch where to look are left out.
pub mod Prefix
pub mod Leaf
mod Fuel
mod Tests
use lib_py.Base.{
  ℕ, zero, suc, ◌≡◌, Bool, true, false, not, ◌||◌, Option, none, some, List, [], ◌∷◌, length,
  if◌then◌else◌,
}
use lib_py.Base.Bytes.{Bytes, bytes_eq}

abbrev pub Hash : Type 0
Hash = Bytes

abbrev pub zero32 : Hash
zero32 =
    0 ∷ 0 ∷ 0 ∷ 0 ∷ 0 ∷ 0 ∷ 0 ∷ 0 ∷ 0 ∷ 0 ∷ 0 ∷ 0 ∷ 0 ∷ 0 ∷ 0 ∷ 0 ∷ 0 ∷ 0 ∷ 0 ∷ 0 ∷ 0 ∷ 0 ∷ 0 ∷ 0
    ∷ 0 ∷ 0 ∷ 0 ∷ 0 ∷ 0 ∷ 0 ∷ 0 ∷ 0 ∷ []

pub record RadixNode : Type 0 where
  pub key : List Bool
  pub value : Option Hash
  pub child_0 : Option Hash
  pub child_1 : Option Hash

-- The dict `nodes`: the first pair of a hash counts, and `pop` takes out each.
abbrev pub Nodes : Type 0
Nodes = List (Hash × RadixNode)

unfoldable pub nodes_get : Hash → Nodes → Option RadixNode
nodes_get h [] = none
nodes_get h ((k, n) ∷ rest) = let other = nodes_get h rest in if bytes_eq k h then some n else other

unfoldable pub nodes_pop : Hash → Nodes → Nodes
nodes_pop h [] = []
nodes_pop h ((k, n) ∷ rest) =
    let others = nodes_pop h rest in if bytes_eq k h then others else (k, n) ∷ others

pub record RadixTree : Type 0 where
  pub nodes : Nodes
  pub root_hash : Option Hash

abbrev pub bit_eq : Bool → Bool → Bool
bit_eq true b = b
bit_eq false b = not b

-- What is left of the key after the prefix, where the prefix matches.
unfoldable pub match_prefix : List Bool → List Bool → Option (List Bool)
match_prefix [] key = some key
match_prefix (p ∷ prefix) [] = none
match_prefix (p ∷ prefix) (b ∷ key) =
    let rest = match_prefix prefix key in if bit_eq p b then rest else none

-- An IndexError of `_bit`, past the end of a key, or the new tree.
pub data Put : Type 0 where
  written : RadixTree → Put
  index_error : Put
  no_root no_fuel : Put

abbrev pub set_child : Bool → Hash → RadixNode → RadixNode
set_child true h n = record n { child_1 = some h }
set_child false h n = record n { child_0 = some h }

abbrev pub child_of : Bool → RadixNode → Option Hash
child_of true n = n.child_1
child_of false n = n.child_0

-- `node_hash` is radix_node_hash, over blake3; `stored` is what the storage and the network hold.
module _ (node_hash : RadixNode → Hash) (stored : Hash → Option RadixNode) where
  unfoldable pub nodes_put : RadixNode → Nodes → Nodes
  nodes_put n nodes = (node_hash n, n) ∷ nodes_pop (node_hash n) nodes

  -- A changed node takes the place of the old one.
  unfoldable pub replace_node : Hash → RadixNode → Nodes → Nodes
  replace_node old n nodes =
      nodes_put n (if bytes_eq (node_hash n) old then nodes else nodes_pop old nodes)

  -- A fetched node is kept in the dict.
  unfoldable pub fetch_node : Hash → RadixTree → Option RadixNode × RadixTree
  fetch_node h tree = elim (nodes_get h tree.nodes) [
    | some n ↦ (some n, tree)
    | none ↦ elim (stored h) [
      | none ↦ (none, tree)
      | some n ↦ (some n, record tree { nodes = (h, n) ∷ tree.nodes })
    ]
  ]

  -- The ancestors of a node, the nearest first, with their hashes and the way down.
  abbrev pub Stack : Type 0
  Stack = List (RadixNode × Hash × Bool)

  unfoldable pub bubble : Stack → Hash → Nodes → RadixTree
  bubble [] h nodes = record { nodes = nodes; root_hash = some h }
  bubble ((parent, old, dir) ∷ stack) h nodes =
      let parent' = set_child dir h parent in
      bubble stack (node_hash parent') (replace_node old parent' nodes)

  abbrev pub leaf_node : List Bool → Hash → RadixNode
  leaf_node key value = record { key = key; value = some value; child_0 = none; child_1 = none }

  unfoldable pub append_leaf : RadixTree → RadixNode → Bool → List Bool → Hash → Stack → RadixTree
  append_leaf tree parent dir tail value stack =
      let leaf = leaf_node tail value in
      let parent' = set_child dir (node_hash leaf) parent in
      bubble stack (node_hash parent')
        (replace_node (node_hash parent) parent' (nodes_put leaf tree.nodes))

  -- The common bits of the two, and what is left of each.
  unfoldable pub common : List Bool → List Bool → List Bool × List Bool × List Bool
  common [] key = ([], [], key)
  common (p ∷ prefix) [] = ([], p ∷ prefix, [])
  common (p ∷ prefix) (b ∷ key) =
      let (c, p', k') = common prefix key in
      if bit_eq p b then (p ∷ c, p', k') else ([], p ∷ prefix, b ∷ key)

  unfoldable pub branch : List Bool → Bool → Hash → Hash → RadixNode
  branch key old_bit old new = set_child old_bit old (
      set_child (not old_bit) new
        (record { key = key; value = none; child_0 = none; child_1 = none }))

  -- `_bit` of the node's key or of the key raises where nothing is left of it.
  unfoldable pub split_parts :
      RadixTree → RadixNode → Stack → List Bool × List Bool × List Bool → Hash → Put
  split_parts tree node stack (c, [], key) value = index_error
  split_parts tree node stack (c, p ∷ suffix, []) value = index_error
  split_parts tree node stack (c, p ∷ suffix, b ∷ tail) value =
      let node' : RadixNode = record node { key = suffix } in
      let leaf = leaf_node tail value in
      let nodes = nodes_put leaf (replace_node (node_hash node) node' tree.nodes) in
      let internal = branch c p (node_hash node') (node_hash leaf) in
      written (bubble stack (node_hash internal) (nodes_put internal nodes))

  unfoldable pub split_and_insert : RadixTree → RadixNode → Stack → List Bool → Hash → Put
  split_and_insert tree node stack key value =
      split_parts tree node stack (common node.key key) value

  -- The same value is not written again.
  unfoldable pub write_value : RadixTree → RadixNode → Stack → Hash → Put
  write_value tree node stack value =
      let node' : RadixNode = record node { value = some value } in
      let new =
        written (bubble stack (node_hash node') (replace_node (node_hash node) node' tree.nodes)) in
      elim node.value [ none ↦ new | some old ↦ if bytes_eq old value then written tree else new ]

  -- The loop of put, which takes at least one bit of the key in each turn.
  unfoldable pub put_from : ℕ → RadixTree → RadixNode → Stack → List Bool → Hash → Put
  put_from zero tree node stack key value = no_fuel
  put_from (suc fuel) tree node stack key value = elim (match_prefix node.key key) [
    | none ↦ split_and_insert tree node stack key value
    | some rest ↦ elim rest [
      | [] ↦ write_value tree node stack value
      | b ∷ tail ↦ elim (child_of b node) [
        | none ↦ written (append_leaf tree node b tail value stack)
        | some h ↦
            let (child, tree') = fetch_node h tree in
            elim child [
              | none ↦ written (append_leaf tree' node b tail value stack)
              | some n ↦ put_from fuel tree' n ((node, node_hash node, b) ∷ stack) tail value
            ]
      ]
    ]
  ]

  unfoldable pub put_in_root : RadixTree → List Bool → Hash → RadixTree
  put_in_root tree key value =
      let leaf = leaf_node key value in
      record { nodes = nodes_put leaf tree.nodes; root_hash = some (node_hash leaf) }

  unfoldable pub put_in_radix_tree : RadixTree → List Bool → Hash → Put
  put_in_radix_tree tree key value = elim tree.root_hash [
    | none ↦ written (put_in_root tree key value)
    | some h ↦
        if bytes_eq h zero32
        then written (put_in_root tree key value)
        else let (root, tree') = fetch_node h tree in
          elim root [ none ↦ no_root | some n ↦ put_from (suc (length key)) tree' n [] key value ]
  ]

  unfoldable pub find_from : ℕ → RadixTree → RadixNode → List Bool → Option RadixNode × RadixTree
  find_from zero tree node key = (none, tree)
  find_from (suc fuel) tree node key = elim (match_prefix node.key key) [
    | none ↦ (none, tree)
    | some rest ↦ elim rest [
      | [] ↦ (some node, tree)
      | b ∷ tail ↦ elim (child_of b node) [
        | none ↦ (none, tree)
        | some h ↦
            let (child, tree') = fetch_node h tree in
            elim child [ none ↦ (none, tree') | some n ↦ find_from fuel tree' n tail ]
      ]
    ]
  ]

  unfoldable pub find_node : RadixTree → List Bool → Option RadixNode × RadixTree
  find_node tree key = elim tree.root_hash [
    | none ↦ (none, tree)
    | some h ↦
        if bytes_eq h zero32
        then (none, tree)
        else let (root, tree') = fetch_node h tree in
          elim root [ none ↦ (none, tree') | some n ↦ find_from (suc (length key)) tree' n key ]
  ]

  -- The hash of the value that is found, and whether there is one.
  abbrev value_of : Option RadixNode → Option Hash
  value_of none = none
  value_of (some n) = n.value

  unfoldable pub get_from_radix_tree : RadixTree → List Bool → Option Hash
  get_from_radix_tree tree key = value_of (find_node tree key).0

  abbrev is_some : Option Hash → Bool
  is_some none = false
  is_some (some h) = true

  unfoldable pub exists_in_radix_tree : RadixTree → List Bool → Bool
  exists_in_radix_tree tree key = is_some (value_of (find_node tree key).0)
