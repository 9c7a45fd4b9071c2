-- ===== src/Consensus/Apply.antt =====
-- The effects of a top-level transaction: `_apply_tx_effects` of
-- src/astreum/consensus/transaction/apply.py with `nested` false, and `storage_fee` of block/rate.py.
-- The handlers of the channel, storage and call codes are an argument `other`;
-- the sizes that storage_walk_fee counts, which depend on what the storage holds, are arguments too.
-- The bloom tree, the receipts trie and the cells to be stored are left out.
pub mod Codes
pub mod Charges
pub mod Finish
pub mod Sums
pub mod Fails
pub mod Apart
pub mod Moved
pub mod Transfers
pub mod Branches
pub mod Buyer
pub mod Counter
pub mod Failure
pub mod Counts
pub mod Replay
pub mod Conserve
mod Tests
use lib_py.Base.{
  ℕ, zero, suc, ◌+◌, ◌-◌, ◌*◌, ◌/◌, ◌≡◌, refl, Bool, true, false, not, ◌||◌, ◌&&◌, Option, none,
  some, List, [], ◌∷◌, ◌++◌, if◌then◌else◌, ltb, leb, ◌==◌, length,
}
use lib_py.Base.Int.{ℤ, pos, pos_part, ◌+ℤ◌, ◌-ℤ◌, leb_ℤ, ltb_ℤ, eqb_ℤ, max_ℤ, min_ℤ}
use lib_py.Base.Bytes.{Bytes, bytes_eq}
use lib_py.Consensus.Codes.{
  TransactionCode, transfer, channel_update, channel_withdraw, channel_close, treasury_deposit,
  treasury_borrow, treasury_repay, treasury_close, treasury_guarantee, treasury_buy, treasury_claim,
  storage_create, storage_payment, storage_remove, code_account_create, code_account_call,
}
use lib_py.Consensus.Fees.{FeeSettlement, settle_fees}
use lib_py.Consensus.Fees
use lib_py.Consensus.Ledger.{
  UserRecord, Account, Ledger, find, put, Block, Outcome, done, failed, aborted, Step, add_address,
  set_account, Transaction, link_cell, bytes_cell, other_cell, storage_address, treasury_address,
}
use lib_py.Consensus.Treasury.Repay.{handle_treasury_repay}
use lib_py.Consensus.Treasury.Close.{handle_treasury_close}
use lib_py.Consensus.Treasury.Trade.{handle_treasury_buy, handle_treasury_claim}

-- calculate_storage_fee where the denominator is positive: the sums of the previous block, or none.
unfoldable pub storage_fee : Option (ℕ × ℕ) → ℕ → ℤ
storage_fee none bytes = pos 0
storage_fee (some (stake, fee)) bytes = pos ((bytes * stake + fee - 1) / fee * 2)

-- The ValueError of calculate_storage_fee.
unfoldable pub rate_valid : Option (ℕ × ℕ) → Bool
rate_valid none = true
rate_valid (some (stake, fee)) = ltb 0 fee

-- What a transaction has come to: the status, the amount to move, the recipient's account, which may
-- be new and outside the cache, and what the code added to fees and logs.
pub data Recipient : Type 0 where
  nobody : Recipient
  known : Bytes → Recipient
  fresh : Account → Recipient

-- What a call or another handler reports: the evaluation, what it mints, the fee of the logs
-- (`none` if they cannot be sized) and the number of the pending bloom keys.
pub record Report : Type 0 where
  pub evaluation : ℤ
  pub minted : ℤ
  pub logs_fee : Option ℤ
  pub bloom_keys : ℕ

abbrev pub no_report : Report
no_report = record { evaluation = pos 0; minted = pos 0; logs_fee = some (pos 0); bloom_keys = 0 }

pub record Work : Type 0 where
  pub block : Block
  pub success : Bool
  pub amount : ℤ
  pub recipient : Recipient
  pub report : Report

pub record Receipt : Type 0 where
  pub transaction_hash : Bytes
  pub transaction_fee : ℤ
  pub storage_fee : ℤ
  pub data_fee : ℤ
  pub execution_fee : ℤ
  pub success : Bool
  pub mint : ℤ

-- An exception, a handler that raises one or never ends, or the block, the receipt and the involved accounts.
pub data Applied : Type 0 where
  raised no_answer : Applied
  applied : Block → Receipt → List Bytes → Applied

-- `account.balance += amount` of an account of the cache.
unfoldable pub credit : Bytes → ℤ → Block → Block
credit key amount b = elim (find key b.accounts) [
  | none ↦ b
  | some a ↦ record b { accounts = put key (record a { balance = a.balance +ℤ amount }) b.accounts }
]

unfoldable pub balance_in : Bytes → Block → ℤ
balance_in key b = elim (find key b.accounts) [ none ↦ pos 0 | some a ↦ a.balance ]

abbrev pub work : Block → Bool → ℤ → Recipient → Work
work b success amount recipient = record {
  block = b;
  success = success;
  amount = amount;
  recipient = recipient;
  report = no_report;
}

-- What the code of block, network and handlers gives.
pub record Context : Type 0 where
  pub chain_id : ℤ
  pub height : ℕ
  pub sender_of : Bytes → Option Bytes
  pub references : Transaction → Option (List (Bytes × Bytes))
  pub rate : ℕ → Option (ℤ × ℤ)
  pub previous : Option (ℕ × ℕ)
  pub transaction_size : Option ℕ
  pub account_size : Account → Option ℕ
  pub receipt_size : Receipt → Option ℕ
  pub other : TransactionCode → Bytes → Transaction → Bool → ℤ → Block → Work

-- `_rollback`: the snapshot comes back, and nothing is moved.
unfoldable pub rollback : Block → Work → Work
rollback snapshot w = record w { block = snapshot; amount = pos 0; recipient = nobody }
