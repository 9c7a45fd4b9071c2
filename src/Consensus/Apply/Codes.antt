-- ===== src/Consensus/Apply/Codes.antt =====
-- The guards and the match of the codes in `_apply_tx_effects` of
-- src/astreum/consensus/transaction/apply.py, with accounts/create/expression.py.
use lib_py.Base.{
  Bool, true, false, not, ◌||◌, ◌&&◌, Option, none, some, [], ◌∷◌, if◌then◌else◌, ◌==◌, length,
}
use lib_py.Base.Int.{ℤ, pos, ◌+ℤ◌, leb_ℤ, ltb_ℤ, eqb_ℤ, max_ℤ}
use lib_py.Base.Bytes.{Bytes, bytes_eq}
use lib_py.Consensus.Codes.{
  TransactionCode, transfer, channel_withdraw, treasury_deposit, treasury_borrow, treasury_repay,
  treasury_close, treasury_guarantee, treasury_buy, treasury_claim, storage_create, storage_payment,
  storage_remove, code_account_create, code_account_call,
}
use lib_py.Consensus.Ledger.{
  Account, find, put, Block, Outcome, done, failed, aborted, set_account, Transaction, link_cell,
  bytes_cell, int_cell, unloaded_cell, other_cell, storage_address, treasury_address,
}
use lib_py.Consensus.Treasury.Repay.{handle_treasury_repay}
use lib_py.Consensus.Treasury.Close.{handle_treasury_close}
use lib_py.Consensus.Treasury.Trade.{handle_treasury_buy, handle_treasury_claim}
use lib_py.Consensus.Treasury.Borrow.{handle_treasury_borrow}
use lib_py.Consensus.Treasury.Guarantees.{handle_treasury_guarantee}
use lib_py.Consensus.Apply.{Recipient, nobody, known, fresh, Work, credit, work, Context}
use lib_py.Consensus.Ledger.{new_account}

-- Codes that move no amount, or are paid by what they credit.
unfoldable pub initial_amount : TransactionCode → ℤ → ℤ
initial_amount channel_withdraw amount = pos 0
initial_amount treasury_borrow amount = pos 0
initial_amount treasury_guarantee amount = pos 0
initial_amount treasury_buy amount = pos 0
initial_amount _ amount = amount

unfoldable pub credit_funding : TransactionCode → Bool
credit_funding storage_payment = true
credit_funding _ = false

unfoldable pub is_storage_create : TransactionCode → Bool
is_storage_create storage_create = true
is_storage_create _ = false

unfoldable pub max_execution_fee : TransactionCode → Transaction → ℤ
max_execution_fee code_account_call tx = max_ℤ (pos 0) tx.cost_limit
max_execution_fee _ tx = pos 0

-- The guards before the code is matched: a failure moves no amount.
unfoldable pub fail_unless : Bool → Bool × ℤ → Bool × ℤ
fail_unless true s = s
fail_unless false s = (false, pos 0)

unfoldable pub guards : TransactionCode → Transaction → Account → Bool × ℤ
guards code tx sender =
    let first =
      fail_unless (eqb_ℤ tx.counter sender.counter) (true, initial_amount code tx.amount) in
    let second =
      fail_unless
        (not (
          bytes_eq tx.recipient storage_address
          && (is_storage_create code && ltb_ℤ (pos 0) first.1)))
        first in
    fail_unless
      (credit_funding code || leb_ℤ (pos 1 +ℤ second.1 +ℤ max_execution_fee code tx) sender.balance)
      second

unfoldable pub get_or_create_recipient : Transaction → Block → Recipient
get_or_create_recipient tx b =
    if bytes_eq tx.recipient tx.sender
    then known tx.sender
    else if bytes_eq tx.recipient storage_address
    then known storage_address
    else elim (find tx.recipient b.accounts) [
      | none ↦ fresh new_account
      | some a ↦ known tx.recipient
    ]

unfoldable pub credit_recipient : Recipient → Bool → ℤ → Block → Work
credit_recipient nobody success amount b = work b success amount nobody
credit_recipient (known key) success amount b =
    work (credit key amount b) success amount (known key)
credit_recipient (fresh a) success amount b =
    work b success amount (fresh (record a { balance = a.balance +ℤ amount }))

-- The stake of the sender in the data of the recipient, the treasury.
unfoldable pub deposit_record : Transaction → ℤ → Account → Option Account
deposit_record tx amount a = elim (a.users tx.sender) [
  | none ↦ none
  | some user ↦ some (record a {
    users = λ k.
        if bytes_eq tx.sender k
        then some (record user { balance = user.balance +ℤ amount })
        else a.users k;
    balance = a.balance +ℤ amount;
  })
]

unfoldable pub deposit : Transaction → Recipient → ℤ → Block → Work
deposit tx nobody amount b = work b false (pos 0) nobody
deposit tx (fresh a) amount b = elim (deposit_record tx amount a) [
  | none ↦ work b false (pos 0) (fresh a)
  | some a' ↦ work b true amount (fresh a')
]
deposit tx (known key) amount b = elim (find key b.accounts) [
  | none ↦ work b false (pos 0) (known key)
  | some a ↦ elim (deposit_record tx amount a) [
    | none ↦ work b false (pos 0) (known key)
    | some a' ↦ work (record b { accounts = put key a' b.accounts }) true amount (known key)
  ]
]

-- `handle_expression_account_create`: an account under the transaction's hash.
unfoldable pub program_hash : Transaction → Option Bytes
program_hash tx = elim tx.cells [
  | [] ↦ none
  | cell ∷ rest ↦ elim cell [
    | bytes_cell x ↦ none
    | link_cell h ↦ h
    | int_cell n ↦ none
    | unloaded_cell ↦ none
    | other_cell ↦ none
  ]
]

unfoldable pub handle_expression_account_create : Bytes → Transaction → ℤ → Block → Work
handle_expression_account_create hash tx amount b = elim (program_hash tx) [
  | none ↦ work b false (pos 0) nobody
  | some program ↦
      if not (length tx.recipient == 0) || (not (length hash == 32) || not (length program == 32))
      then work b false (pos 0) nobody
      else elim (find hash b.accounts) [
        | some a ↦ work b false (pos 0) nobody
        | none ↦
            work
              (set_account hash (record new_account { balance = tx.amount; code_hash = program })
                b).1
              true amount nobody
      ]
]

unfoldable pub treasury_if_named : Transaction → Recipient
treasury_if_named tx =
    if bytes_eq tx.recipient treasury_address then known treasury_address else nobody

-- A handler's result; `none` is that it raises or does not end.
unfoldable pub handled : ℤ → Recipient → Outcome (Unit {0}) × Block → Option Work
handled amount recipient (done u, b) = some (work b true amount recipient)
handled amount recipient (failed, b) = some (work b false (pos 0) recipient)
handled amount recipient (aborted, b) = none

module _ (c : Context) where
  -- The match of the code after the guards.
  unfoldable pub match_code : TransactionCode → Bytes → Transaction → Bool → ℤ → Block → Option Work
  match_code transfer hash tx ok amount b =
      some (credit_recipient (get_or_create_recipient tx b) ok amount b)
  match_code treasury_deposit hash tx ok amount b =
      let recipient = get_or_create_recipient tx b in
      if bytes_eq tx.recipient treasury_address
      then if ok then some (deposit tx recipient amount b) else some (work b false amount recipient)
      else some (work b ok (pos 0) recipient)
  match_code treasury_close hash tx ok amount b =
      if ok
      then handled amount (known treasury_address) (handle_treasury_close c.height tx b)
      else some (work b false (pos 0) (known treasury_address))
  match_code treasury_repay hash tx ok amount b =
      if ok
      then handled amount (treasury_if_named tx) (handle_treasury_repay c.height tx b)
      else some (work b false (pos 0) (treasury_if_named tx))
  match_code treasury_buy hash tx ok amount b =
      if ok
      then handled (pos 0) (known treasury_address) (handle_treasury_buy c.sender_of c.rate tx b)
      else some (work b false (pos 0) (known treasury_address))
  match_code treasury_claim hash tx ok amount b =
      if ok
      then handled (pos 0) (known treasury_address)
          (handle_treasury_claim c.sender_of c.rate c.height tx b)
      else some (work b false (pos 0) (known treasury_address))
  match_code treasury_borrow hash tx ok amount b =
      if ok
      then handled (pos 0) (known treasury_address)
          (handle_treasury_borrow c.rate c.height hash tx (c.references tx) b)
      else some (work b false (pos 0) (known treasury_address))
  match_code treasury_guarantee hash tx ok amount b =
      if ok
      then handled (pos 0) (known treasury_address) (handle_treasury_guarantee c.height hash tx b)
      else some (work b false (pos 0) (known treasury_address))
  match_code storage_remove hash tx ok amount b =
      some (work b ok (pos 0) (get_or_create_recipient tx b))
  match_code code_account_create hash tx ok amount b =
      if ok
      then some (handle_expression_account_create hash tx amount b)
      else some (work b false (pos 0) nobody)
  match_code code hash tx ok amount b = some (c.other code hash tx ok amount b)
