-- ===== src/Consensus/Channel/Tests.antt =====
-- A payer with one channel, and the theorems about channels on it.
use lib_py.Base.{◌≡◌, refl, Bool, true, false, none, some, List, [], ◌∷◌, ◌++◌, if◌then◌else◌}
use lib_py.Base.Int.{ℤ, pos, ◌+ℤ◌, ◌-ℤ◌, ◌≤ℤ◌, ◌<ℤ◌}
use lib_py.Base.Bytes.{Bytes, bytes_eq}
use lib_py.Storage.Radix.{
  RadixTree, get_from_radix_tree, put_in_radix_tree, put_from, find_node, find_from, fetch_node,
  nodes_get, match_prefix, write_value, leaf_node,
}
use lib_py.Consensus.Channel.Store.{
  Channel, Accounts, BlockState, Node, key_bits, byte_bits, set_account, channel_of, channels_of,
  balance_of, put_head, put_channel, credit,
}
use lib_py.Consensus.Channel.{
  int_node, bytes_node, Transaction, voucher_data, signed, withdraw_voucher, write_channel,
  withdraw_message, to_bytes_little, little, no_head, withdrawn_channel, handle_channel_withdraw,
  handle_channel_close, closed_channel,
}
use lib_py.Consensus.Channel.Apply.{channel_withdraw, apply_channel, dispatch, keep, settled}
use lib_py.Consensus.Channel.Balances.{withdraw_pays, close_pays}
use lib_py.Consensus.Channel.Message.{withdraw_message-inj}

abbrev opened : Channel
opened = record { balance = pos 50; counter = pos 3; withdrawal_window = pos 900 }

-- The node has the channel `opened` under the hash 5 ∷ []. A signature is genuine if it is the message
-- itself.
abbrev node : Node
node = record {
  node_hash = λ n. 4 ∷ (elim n.value [ none ↦ [] | some h ↦ h ]);
  stored = λ h. none;
  from_storage = λ h. if bytes_eq h (5 ∷ []) then some opened else none;
  head = λ c. 6 ∷ [];
  verify = λ key signature message. bytes_eq signature message;
}

-- The bits of the key 2 ∷ [].
abbrev key_two : List Bool
key_two = false ∷ false ∷ false ∷ false ∷ false ∷ false ∷ true ∷ false ∷ []

abbrev channels : RadixTree
channels = record {
  nodes = (4 ∷ 5 ∷ [], leaf_node node.node_hash node.stored key_two (5 ∷ [])) ∷ [];
  root_hash = some (4 ∷ 5 ∷ []);
}

-- The address 1 ∷ [] pays 2 ∷ [].
abbrev accounts : Accounts
accounts key =
    if bytes_eq (1 ∷ []) key
    then some (record { balance = pos 10; channels = channels })
    else if bytes_eq (2 ∷ []) key
    then some (record { balance = pos 7; channels = record { nodes = []; root_hash = none } })
    else none

abbrev before : BlockState
before = record { accounts = accounts; pending_exprs = [] }

abbrev voucher : Bytes
voucher =
    2 ∷ 1 ∷ 0 ∷ 0 ∷ 0 ∷ 0 ∷ 0 ∷ 0 ∷ 0 ∷ 1 ∷ 2 ∷ 4 ∷ 0 ∷ 0 ∷ 0 ∷ 0 ∷ 0 ∷ 0 ∷ 0 ∷ 20 ∷ 0 ∷ 0 ∷ 0 ∷ 0
    ∷ 0 ∷ 0 ∷ 0 ∷ []

voucher_run : withdraw_message (pos 1) (1 ∷ []) (2 ∷ []) (pos 4) (pos 20) ≡ some voucher
unfolding withdraw_message to_bytes_little little
voucher_run = refl

abbrev claim : Transaction
claim = record {
  chain_id = pos 1;
  sender = 2 ∷ [];
  recipient = 1 ∷ [];
  amount = pos 0;
  data_nodes = int_node (pos 4) ∷ int_node (pos 20) ∷ bytes_node voucher ∷ [];
}

withdraw_run : (handle_channel_withdraw node (some (pos 800)) claim before).1 ≡ some true
unfolding handle_channel_withdraw withdraw_voucher voucher_data signed withdraw_message
    to_bytes_little little channel_of withdrawn_channel no_head bytes_eq ◌-ℤ◌ write_channel
    put_channel key_bits byte_bits get_from_radix_tree find_node find_from fetch_node nodes_get
    match_prefix put_in_radix_tree put_from write_value
withdraw_run = refl

paid_out :
    balance_of
      (apply_channel node channel_withdraw (some (pos 800)) true claim before).accounts
      (2 ∷ [])
    ≡ some (pos 27)
unfolding apply_channel dispatch keep settled handle_channel_withdraw withdraw_voucher voucher_data
    signed withdraw_message to_bytes_little little channel_of withdrawn_channel no_head bytes_eq
    ◌-ℤ◌ write_channel put_channel key_bits byte_bits get_from_radix_tree find_node find_from
    fetch_node nodes_get match_prefix put_in_radix_tree put_from write_value credit set_account ◌+ℤ◌
paid_out = refl

withdraw_pays_example :
    let after = (handle_channel_withdraw node (some (pos 800)) claim before).0 in
    (signed node claim (pos 4) (pos 20) voucher ≡ true)
    × (balance_of after.accounts (2 ∷ []) ≡ some (pos 7 +ℤ pos 20))
    × ((old : Channel) × (new : Channel) × (tree : RadixTree) × (new_tree : RadixTree) × (channel_of
            node accounts
            (1 ∷ [])
            (2 ∷ [])
          ≡ some old)
        × ((time : ℤ) × (some (pos 800) ≡ some time) × (time <ℤ old.withdrawal_window))
        × (old.counter <ℤ pos 4)
        × (new.counter ≡ pos 4)
        × (pos 0 ≤ℤ pos 20)
        × (pos 20 ≤ℤ old.balance)
        × (new.balance +ℤ pos 20 ≡ old.balance)
        × (after.pending_exprs ≡ [] ++ new ∷ [])
        × (channels_of accounts (1 ∷ []) ≡ some tree)
        × (put_head node tree (2 ∷ []) new ≡ some new_tree)
        × (channels_of after.accounts (1 ∷ []) ≡ some new_tree))
withdraw_pays_example =
    withdraw_pays node (some (pos 800)) claim before (pos 4) (pos 20) (pos 7) voucher withdraw_run
      (unfold voucher_data in refl) (unfold bytes_eq in refl)

close_run : (handle_channel_close node (some (pos 901)) (1 ∷ []) (2 ∷ []) before).1 ≡ some true
unfolding handle_channel_close closed_channel channel_of no_head bytes_eq ◌+ℤ◌ write_channel
    put_channel key_bits byte_bits get_from_radix_tree find_node find_from fetch_node nodes_get
    match_prefix put_in_radix_tree put_from write_value credit set_account
close_run = refl

close_pays_example :
    let after = (handle_channel_close node (some (pos 901)) (1 ∷ []) (2 ∷ []) before).0 in
    (old : Channel) × (new : Channel) × (tree : RadixTree) × (new_tree : RadixTree) × (channel_of
        node accounts
        (1 ∷ [])
        (2 ∷ [])
      ≡ some old)
    × (balance_of after.accounts (1 ∷ []) ≡ some (pos 10 +ℤ old.balance))
    × (new.balance ≡ pos 0)
    × (old.counter <ℤ new.counter)
    × (after.pending_exprs ≡ [] ++ new ∷ [])
    × (channels_of accounts (1 ∷ []) ≡ some tree)
    × (put_head node tree (2 ∷ []) new ≡ some new_tree)
    × (channels_of after.accounts (1 ∷ []) ≡ some new_tree)
close_pays_example =
    close_pays node (some (pos 901)) (1 ∷ []) (2 ∷ []) (pos 10) before close_run
      (unfold bytes_eq in refl)

abbrev one : Bytes
one = 1 ∷ []

abbrev two : Bytes
two = 2 ∷ []

withdraw_message-inj_example :
    (pos 1 ≡ pos 1) × (one ≡ one) × (two ≡ two) × (pos 4 ≡ pos 4) × (pos 20 ≡ pos 20)
withdraw_message-inj_example =
    withdraw_message-inj (pos 1) (pos 1) (pos 4) (pos 4) (pos 20) (pos 20) (1 ∷ []) (1 ∷ [])
      (2 ∷ []) (2 ∷ []) voucher refl refl voucher_run voucher_run
