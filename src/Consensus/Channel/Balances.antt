-- ===== src/Consensus/Channel/Balances.antt =====
-- What each channel handler does to the balances and the channels when it returns True.
use lib_py.Base.{◌≡◌, sym, ap, ◌∙◌, subst, true, Option, some, [], ◌∷◌, ◌++◌}
use lib_py.Base.Int.{ℤ, pos, pos_part, neg_part, int_laws, ◌+ℤ◌, ◌≤ℤ◌, ◌<ℤ◌}
use lib_py.Base.Bytes.{Bytes}
use lib_py.Storage.Radix.{RadixTree}
use lib_py.Consensus.Channel.Store.{
  Channel, Node, BlockState, channel_of, channels_of, balance_of, put_head,
}
use lib_py.Consensus.Channel.Store.Lookup.{some-inj}
use lib_py.Consensus.Channel.{
  Transaction, voucher_data, signed, handle_channel_withdraw, handle_channel_close,
}
use lib_py.Consensus.Channel.Change.{plus_zero}
use lib_py.Consensus.Channel.Handlers.{
  handle_channel_withdraw-Checked, Checked, handle_channel_close-Change,
}

-- If `handle_channel_withdraw` accepts a voucher, the payer has signed it, the previous block is
-- earlier than the withdrawal window of the channel that the storage has under the hash in the
-- payer's tree, the counter is above that channel's, and the amount is from 0 to its balance, from
-- which it moves to the sender's balance. The channel with the voucher's counter and the rest of the
-- balance is pending, and the payer's tree is the one after a put of its hash.
pub withdraw_pays :
    (N : Node) (now : Option ℤ) (tx : Transaction) (before : BlockState) (counter amount b : ℤ)
    (signature : Bytes)
    → (handle_channel_withdraw N now tx before).1 ≡ some true
    → voucher_data tx.data_nodes ≡ some (counter, amount, signature)
    → balance_of before.accounts tx.sender ≡ some b
    → let after = (handle_channel_withdraw N now tx before).0 in
      (signed N tx counter amount signature ≡ true)
      × (balance_of after.accounts tx.sender ≡ some (b +ℤ amount))
      × ((old : Channel) × (new : Channel) × (tree : RadixTree) × (new_tree : RadixTree)
          × (channel_of N before.accounts tx.recipient tx.sender ≡ some old)
          × ((time : ℤ) × (now ≡ some time) × (time <ℤ old.withdrawal_window))
          × (old.counter <ℤ counter)
          × (new.counter ≡ counter)
          × (pos 0 ≤ℤ amount)
          × (amount ≤ℤ old.balance)
          × (new.balance +ℤ amount ≡ old.balance)
          × (after.pending_exprs ≡ before.pending_exprs ++ new ∷ [])
          × (channels_of before.accounts tx.recipient ≡ some tree)
          × (put_head N tree tx.sender new ≡ some new_tree)
          × (channels_of after.accounts tx.recipient ≡ some new_tree))
withdraw_pays N now tx before counter amount b signature accepted parsed rich =
    let (n, a, s, same, checked) = handle_channel_withdraw-Checked N now tx before accepted in
    let after = (handle_channel_withdraw N now tx before).0 in
    let found : Checked N now tx counter amount signature before after =
      subst (λ v. Checked N now tx v.0 v.1 v.2 before after) (some-inj (sym same ∙ parsed))
        checked in
    let change = found.change in
    let up : found.old.counter <ℤ found.new.counter = change.moves.counter_up in
    (
      found.is_signed,
      change.credited b rich,
      (
        found.old,
        found.new,
        change.tree,
        change.new_tree,
        change.found,
        found.in_time,
        subst (λ x. found.old.counter <ℤ x) found.new_counter up,
        found.new_counter,
        found.covered.0,
        found.covered.1,
        change.moves.balanced ∙ sym (plus_zero found.old.balance),
        change.pending,
        change.tree_before,
        change.written,
        change.tree_after,
      ),
    )

drained : (a b : ℤ) → a +ℤ b ≡ b +ℤ pos 0 → a ≡ pos 0
drained a b h =
    let e : pos_part (a +ℤ b) ≡ pos_part (b +ℤ pos 0) = ap pos_part h in
    let f : neg_part (a +ℤ b) ≡ neg_part (b +ℤ pos 0) = ap neg_part h in grind int_laws

-- If `handle_channel_close` returns True, the balance of the channel that the storage has under the
-- hash in the sender's tree has moved to the sender's balance, and of the channel there is a new
-- version with balance 0 and a higher counter. It is pending, and the sender's tree is the one after a
-- put of its hash.
pub close_pays :
    (N : Node) (now : Option ℤ) (sender counterparty : Bytes) (b : ℤ) (before : BlockState)
    → (handle_channel_close N now sender counterparty before).1 ≡ some true
    → balance_of before.accounts sender ≡ some b
    → let after = (handle_channel_close N now sender counterparty before).0 in
      (old : Channel) × (new : Channel) × (tree : RadixTree) × (new_tree : RadixTree) × (channel_of
          N before.accounts sender counterparty
        ≡ some old)
      × (balance_of after.accounts sender ≡ some (b +ℤ old.balance))
      × (new.balance ≡ pos 0)
      × (old.counter <ℤ new.counter)
      × (after.pending_exprs ≡ before.pending_exprs ++ new ∷ [])
      × (channels_of before.accounts sender ≡ some tree)
      × (put_head N tree counterparty new ≡ some new_tree)
      × (channels_of after.accounts sender ≡ some new_tree)
close_pays N now sender counterparty b before accepted rich =
    let (old, new, change) =
      handle_channel_close-Change N now sender counterparty before accepted in
    (
      old,
      new,
      change.tree,
      change.new_tree,
      change.found,
      change.credited b rich,
      drained new.balance old.balance change.moves.balanced,
      change.moves.counter_up,
      change.pending,
      change.tree_before,
      change.written,
      change.tree_after,
    )
