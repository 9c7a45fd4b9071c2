-- ===== src/Consensus/Channel/Store.antt =====
-- The accounts as the channel handlers of src/astreum/consensus/transaction/channel see them: the
-- store of consensus/models/accounts.py, the account of consensus/account/model.py and the channel
-- of channel/model.py. An account object is shared with the cache that holds it, so a change of it
-- is a change of the store at its address. The channels are a radix tree with the hashes of their
-- expressions; the expression of a channel that is written goes to the block's pending expressions.
pub mod Lookup
use lib_py.Base.{
  ℕ, zero, suc, ◌/◌, ◌%◌, ◌^◌, ◌==◌, Bool, true, false, Option, none, some, List, [], ◌∷◌, ◌++◌,
  if◌then◌else◌,
}
use lib_py.Base.Int.{ℤ, ◌+ℤ◌}
use lib_py.Base.Bytes.{Bytes, bytes_eq}
use lib_py.Storage.Radix.{
  Hash, RadixNode, RadixTree, Put, written, index_error, no_root, no_fuel, get_from_radix_tree,
  put_in_radix_tree,
}

pub record Channel : Type 0 where
  pub balance : ℤ
  pub counter : ℤ
  pub withdrawal_window : ℤ

pub record Account : Type 0 where
  pub balance : ℤ
  pub channels : RadixTree

abbrev pub Accounts : Type 0
Accounts = Bytes → Option Account

-- What a handler changes of the block.
pub record BlockState : Type 0 where
  pub accounts : Accounts
  pub pending_exprs : List Channel

-- What the handlers ask of the node and of third parties: the hash of a radix node, the nodes that the
-- storage and the network hold, the channel that Channel.from_storage reads there under a hash, the
-- hash of a channel's expression, and the verification of an Ed25519 signature.
pub record Node : Type 0 where
  pub node_hash : RadixNode → Hash
  pub stored : Hash → Option RadixNode
  pub from_storage : Hash → Option Channel
  pub head : Channel → Hash
  pub verify : Bytes → Bytes → Bytes → Bool

-- The bits of a key, from the highest of each byte.
unfoldable pub byte_bits : ℕ → ℕ → List Bool
byte_bits zero x = []
byte_bits (suc n) x = ((x / 2 ^ n) % 2 == 1) ∷ byte_bits n x

unfoldable pub key_bits : Bytes → List Bool
key_bits [] = []
key_bits (x ∷ key) = byte_bits 8 x ++ key_bits key

unfoldable pub set_account : Bytes → Account → Accounts → Accounts
set_account address account accounts key =
    if bytes_eq address key then some account else accounts key

abbrev pub balance_in : Option Account → Option ℤ
balance_in none = none
balance_in (some account) = some account.balance

abbrev pub balance_of : Accounts → Bytes → Option ℤ
balance_of accounts key = balance_in (accounts key)

abbrev pub channels_in : Option Account → Option RadixTree
channels_in none = none
channels_in (some account) = some account.channels

abbrev pub channels_of : Accounts → Bytes → Option RadixTree
channels_of accounts key = channels_in (accounts key)

-- `account.balance += amount`.
unfoldable pub credit : Bytes → ℤ → Accounts → Accounts
credit key amount accounts = elim (accounts key) [
  | none ↦ accounts
  | some account ↦ set_account key (record account { balance = account.balance +ℤ amount }) accounts
]

module _ (N : Node) where
  -- `get_from_radix_tree` and `get_channel_from_storage` on the account of the owner.
  unfoldable pub channel_of : Accounts → Bytes → Bytes → Option Channel
  channel_of accounts owner counterparty = elim (accounts owner) [
    | none ↦ none
    | some account ↦
        elim (get_from_radix_tree N.node_hash N.stored account.channels (key_bits counterparty)) [
          | none ↦ none
          | some channel_head ↦ N.from_storage channel_head
        ]
  ]

  -- The tree of a put, or `none` for what `put_in_radix_tree` raises.
  abbrev pub tree_of : Put → Option RadixTree
  tree_of (written tree) = some tree
  tree_of _ = none

  abbrev pub put_head : RadixTree → Bytes → Channel → Option RadixTree
  put_head tree counterparty c =
      tree_of (put_in_radix_tree N.node_hash N.stored tree (key_bits counterparty) (N.head c))

  -- `put_in_radix_tree` on the channels of the owner.
  unfoldable pub put_channel : Bytes → Bytes → Channel → Accounts → Option Accounts
  put_channel owner counterparty c accounts = elim (accounts owner) [
    | none ↦ none
    | some account ↦ elim (put_head account.channels counterparty c) [
      | none ↦ none
      | some tree ↦ some (set_account owner (record account { channels = tree }) accounts)
    ]
  ]
