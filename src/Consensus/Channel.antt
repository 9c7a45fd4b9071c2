-- ===== src/Consensus/Channel.antt =====
-- Payment channels: src/astreum/consensus/transaction/channel, and the branches of
-- consensus/transaction/apply.py that call it. The channels of an account are a tree of Storage/Radix;
-- what the storage and the network hold, the hashes and the Ed25519 verification are parameters.
pub mod Store
pub mod Apply
pub mod Change
pub mod Handlers
pub mod Message
pub mod Balances
mod Tests
use lib_py.Base.{
  ℕ, zero, suc, ◌/◌, ◌%◌, ◌^◌, Bool, true, false, ◌&&◌, ◌||◌, Option, none, some, List, [], ◌∷◌,
  ◌++◌, ltb, length, if◌then◌else◌, ◌>>=◌,
}
use lib_py.Base.Int.{ℤ, pos, negsuc, ◌+ℤ◌, ◌-ℤ◌, ltb_ℤ, leb_ℤ}
use lib_py.Base.Bytes.{Bytes, bytes_eq}
use lib_py.Crypto.Merkle.{zero32}
use lib_py.Consensus.Channel.Store.{
  Channel, Node, Accounts, BlockState, channel_of, put_channel, credit,
}

-- What the handlers read of a transaction: the data is the list of the heads that `_data_nodes`
-- collects.
pub data DataNode : Type 0 where
  int_node : ℤ → DataNode
  bytes_node : Bytes → DataNode
  other_node : DataNode

pub record Transaction : Type 0 where
  pub chain_id : ℤ
  pub sender : Bytes
  pub recipient : Bytes
  pub amount : ℤ
  pub data_nodes : List DataNode

-- The counter, the amount and the signature of a withdrawal: three nodes with these tags.
pub voucher_data : List DataNode → Option (ℤ × ℤ × Bytes)
voucher_data (int_node counter ∷ int_node amount ∷ bytes_node signature ∷ []) =
    some (counter, amount, signature)
voucher_data _ = none

-- `n.to_bytes(width, "little", signed=False)`; `none` is the OverflowError.
pub little : ℕ → ℕ → Bytes
little zero n = []
little (suc w) n = n % 256 ∷ little w (n / 256)

pub to_bytes_little : ℕ → ℤ → Option Bytes
to_bytes_little width (pos n) = if ltb n (256 ^ width) then some (little width n) else none
to_bytes_little width (negsuc n) = none

-- `_withdraw_message`.
pub withdraw_message : ℤ → Bytes → Bytes → ℤ → ℤ → Option Bytes
withdraw_message chain_id payer recipient counter amount = do
  chain ← to_bytes_little 8 chain_id
  count ← to_bytes_little 8 counter
  value ← to_bytes_little 8 amount
  some (2 ∷ (chain ++ (payer ++ (recipient ++ (count ++ value)))))

-- The channel that `handle_channel_update` writes, or `none` if the window would shrink.
pub updated_channel : Option ℤ → ℤ → Channel → Option Channel
updated_channel new_window tx_amount c =
    let window : ℤ = elim new_window [ none ↦ c.withdrawal_window | some w ↦ w ] in
    if ltb_ℤ window c.withdrawal_window
    then none
    else some (record {
      balance = if ltb_ℤ (pos 0) tx_amount then c.balance +ℤ tx_amount else c.balance;
      counter = c.counter +ℤ pos 1;
      withdrawal_window = window;
    })

-- The channel that `handle_channel_withdraw` writes, or `none` if a test fails.
pub withdrawn_channel : Option ℤ → ℤ → ℤ → Channel → Option Channel
withdrawn_channel none counter amount c = none
withdrawn_channel (some now) counter amount c =
    if leb_ℤ c.withdrawal_window now
    then none
    else if leb_ℤ counter c.counter
    then none
    else if ltb_ℤ c.balance amount
    then none
    else some (record {
      balance = c.balance -ℤ amount;
      counter = counter;
      withdrawal_window = c.withdrawal_window;
    })

-- The channel that `handle_channel_close` writes.
pub closed_channel : Channel → Channel
closed_channel c = record {
  balance = pos 0;
  counter = c.counter +ℤ pos 1;
  withdrawal_window = c.withdrawal_window;
}

-- `not head or head == ZERO32`.
pub no_head : Bytes → Bool
no_head [] = true
no_head (b ∷ head) = bytes_eq (b ∷ head) zero32

-- What a handler leaves, and what it returns: `none` is an exception of `put_in_radix_tree`.
abbrev pub Returned : Type 0
Returned = BlockState × Option Bool

module _ (N : Node) where
  -- The channel's hash is put in the tree of the owner, then the accounts change once more, and the
  -- channel's expression is pending.
  unfoldable pub write_channel :
      Bytes → Bytes → Channel → (Accounts → Accounts) → BlockState → Returned
  write_channel owner counterparty c finish b =
      if no_head (N.head c)
      then (b, some false)
      else elim (put_channel N owner counterparty c b.accounts) [
        | none ↦ (b, none)
        | some accounts ↦ (
          record { accounts = finish accounts; pending_exprs = b.pending_exprs ++ c ∷ [] },
          some true,
        )
      ]

  unfoldable pub handle_channel_update : Bytes → Bytes → Option ℤ → ℤ → BlockState → Returned
  handle_channel_update sender counterparty new_window tx_amount b =
      if ltb_ℤ tx_amount (pos 0)
      then (b, some false)
      else elim (channel_of N b.accounts sender counterparty) [
        | none ↦ (b, some false)
        | some c ↦ elim (updated_channel new_window tx_amount c) [
          | none ↦ (b, some false)
          | some c' ↦ write_channel sender counterparty c' (λ accounts. accounts) b
        ]
      ]

  -- The signature check, with every exception of the `try` as false.
  pub signed : Transaction → ℤ → ℤ → Bytes → Bool
  signed tx counter amount signature =
      elim (withdraw_message tx.chain_id tx.recipient tx.sender counter amount) [
        | none ↦ false
        | some message ↦ N.verify tx.recipient signature message
      ]

  -- `handle_channel_withdraw` once the data is read; the payer is the transaction's recipient.
  unfoldable pub withdraw_voucher : Option ℤ → Transaction → ℤ → ℤ → Bytes → BlockState → Returned
  withdraw_voucher now tx counter amount signature b =
      if ltb_ℤ amount (pos 0)
      then (b, some false)
      else if signed tx counter amount signature
      then elim (channel_of N b.accounts tx.recipient tx.sender) [
        | none ↦ (b, some false)
        | some c ↦ elim (withdrawn_channel now counter amount c) [
          | none ↦ (b, some false)
          | some c' ↦ write_channel tx.recipient tx.sender c' (credit tx.sender amount) b
        ]
      ]
      else (b, some false)

  unfoldable pub handle_channel_withdraw : Option ℤ → Transaction → BlockState → Returned
  handle_channel_withdraw now tx b = elim (voucher_data tx.data_nodes) [
    | none ↦ (b, some false)
    | some (counter, amount, signature) ↦ withdraw_voucher now tx counter amount signature b
  ]

  -- The balance is paid out before the test of the new head, so a close that fails there has
  -- changed the account.
  unfoldable pub handle_channel_close : Option ℤ → Bytes → Bytes → BlockState → Returned
  handle_channel_close none sender counterparty b = (b, some false)
  handle_channel_close (some now) sender counterparty b =
      elim (channel_of N b.accounts sender counterparty) [
        | none ↦ (b, some false)
        | some c ↦
            if leb_ℤ now c.withdrawal_window
            then (b, some false)
            else write_channel sender counterparty (closed_channel c) (λ accounts. accounts)
                (record b { accounts = credit sender c.balance b.accounts })
      ]
