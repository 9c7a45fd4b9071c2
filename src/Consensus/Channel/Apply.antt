-- ===== src/Consensus/Channel/Apply.antt =====
-- The channel branches of `_apply_tx_effects` in src/astreum/consensus/transaction/apply.py, for a
-- top-level transaction: the data of the transaction is read, the handler runs, and a failure
-- restores the accounts.
pub mod Untouched
use lib_py.Base.{Bool, true, false, ◌&&◌, Option, none, some, List, [], ◌∷◌, if◌then◌else◌}
use lib_py.Base.Int.{ℤ}
use lib_py.Base.Bytes.{Bytes, bytes_eq}
use lib_py.Consensus.Channel.Store.{Channel, Node, BlockState}
use lib_py.Consensus.Channel.{
  Returned, DataNode, int_node, bytes_node, other_node, Transaction, handle_channel_update,
  handle_channel_withdraw, handle_channel_close,
}

-- The three codes of a channel transaction.
pub data ChannelCode : Type 0 where
  channel_update channel_withdraw channel_close : ChannelCode

-- What the match of the code leaves: the receipt's status, the UnboundLocalError of a read of
-- `channel_update_success` that no branch has set, or an exception of the handler.
pub data Status : Type 0 where
  status_success status_failed unbound_local raised : Status

-- `nodes[-1]` as the counterparty and `nodes[0]` of two nodes as the window; `none` if the branch
-- leaves `channel_update_success` unset.
pub update_data : List DataNode → Option (Bytes × Option ℤ)
update_data (bytes_node counterparty ∷ []) = some (counterparty, none)
update_data (int_node window ∷ bytes_node counterparty ∷ []) = some (counterparty, some window)
update_data (_ ∷ bytes_node counterparty ∷ []) = some (counterparty, none)
update_data _ = none

-- The counterparty of a close: a single bytes node.
pub close_data : List DataNode → Option Bytes
close_data (bytes_node counterparty ∷ []) = some counterparty
close_data _ = none

-- The status of a handler's result.
unfoldable pub settled : Returned → BlockState × Status
settled (b, some true) = (b, status_success)
settled (b, some false) = (b, status_failed)
settled (b, none) = (b, raised)

module _ (N : Node) where
  -- The match of the code; `ok` is that the guards before it left the status a success, and `now`
  -- the time stamp of the previous block.
  unfoldable pub dispatch :
      ChannelCode → Option ℤ → Bool → Transaction → BlockState → BlockState × Status
  dispatch channel_update now ok tx b =
      if bytes_eq tx.recipient tx.sender && ok
      then elim (update_data tx.data_nodes) [
        | none ↦ (b, unbound_local)
        | some (counterparty, window) ↦
            settled (handle_channel_update N tx.sender counterparty window tx.amount b)
      ]
      else (b, status_failed)
  dispatch channel_withdraw now ok tx b =
      if ok
      then elim (b.accounts tx.recipient) [
        | none ↦ (b, status_failed)
        | some account ↦ settled (handle_channel_withdraw N now tx b)
      ]
      else (b, status_failed)
  dispatch channel_close now ok tx b =
      if bytes_eq tx.recipient tx.sender && ok
      then elim (close_data tx.data_nodes) [
        | none ↦ (b, status_failed)
        | some counterparty ↦ settled (handle_channel_close N now tx.sender counterparty b)
      ]
      else (b, status_failed)

  -- `_rollback`: only a success keeps what the handler wrote.
  unfoldable pub keep : BlockState → BlockState × Status → BlockState
  keep before (after, status_success) = after
  keep before (after, _) = before

  unfoldable pub apply_channel :
      ChannelCode → Option ℤ → Bool → Transaction → BlockState → BlockState
  apply_channel code now ok tx b = keep b (dispatch code now ok tx b)
