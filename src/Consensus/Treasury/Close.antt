-- ===== src/Consensus/Treasury/Close.antt =====
-- handle_treasury_close of src/astreum/consensus/transaction/treasury/close.py.
use lib_py.Base.{
  ℕ, suc, ◌+◌, ◌-◌, ◌*◌, ◌/◌, Bool, true, false, not, Option, none, some, if◌then◌else◌, ltb, leb,
  ◌==◌,
}
use lib_py.Base.Int.{ℤ, pos, pos_part, ◌+ℤ◌}
use lib_py.Base.Bytes.{Bytes}
use lib_py.Consensus.Loan.{paid_at}
use lib_py.Consensus.Ledger.{
  Loan, UserRecord, Account, Step, pure, fail, ◌>>=◌, ◌>>◌, guard, find, set_account, pay, put_user,
  add_default, Transaction,
}
use lib_py.Consensus.Treasury.{
  write_off, catch_up, of_fuel, release_guarantees, put_loan, set_next, open_loan, for_payment,
}

-- What a close writes.
unfoldable pub closed : Transaction → Bytes → UserRecord → Loan → ℕ → ℤ → Step (Unit {0})
closed tx id user loan missed excess = do
  let loan' = set_next loan 0 missed
  let written_off = pos (missed * loan.schedule.payment_amount)
  put_user tx.sender (record (put_loan id loan' user) {
    balance = user.balance +ℤ excess;
    defaulted = user.defaulted +ℤ written_off;
  })
  add_default written_off
  release_guarantees loan'

-- `account.balance += amount` where the account is there.
unfoldable pub pay_known : Bytes → ℤ → Option Account → Step (Unit {0})
pay_known key amount none = pure tt
pay_known key amount (some account) =
    set_account key (record account { balance = account.balance +ℤ amount })

unfoldable pub pay_if_known : Bytes → ℤ → Step (Unit {0})
pay_if_known key amount b = pay_known key amount (find key b.accounts) b

-- All that was left of an unsecured loan is written off.
unfoldable pub close_nothing : Transaction → ℕ → Bytes → UserRecord → Loan → ℕ → Step (Unit {0})
close_nothing tx amount id user loan missed = do
  pay tx.sender (pos amount)
  closed tx id user loan missed (pos 0)

unfoldable pub close_rest : Transaction → ℕ → ℕ → Bytes → UserRecord → Loan → ℕ → Step (Unit {0})
close_rest tx amount cost id user loan missed = do
  guard (not (cost == 0))
  guard (leb cost amount)
  pay loan.owner (pos cost)
  if amount == cost then pure tt else pay_if_known tx.sender (pos (amount - cost))
  closed tx id user loan missed (pos 0)

-- An unsecured loan: what is overdue is written off, the rest of the principal is due.
unfoldable pub close_unsecured :
    Transaction → ℕ → Bytes → UserRecord → Loan → ℕ → ℕ → Step (Unit {0})
close_unsecured tx amount id user loan missed at = do
  let s = loan.schedule
  guard (if at == 0 then true else not (s.payment_interval_blocks == 0))
  let paid_after : ℕ = if at == 0 then s.payment_count else paid_at s at
  let remaining = s.payment_count - paid_after
  if remaining == 0
      then close_nothing tx amount id user loan missed
      else close_rest tx amount (s.discounted_amount * remaining / s.payment_count) id user loan
          missed

-- A secured loan: what is overdue and the rest of the principal are due, and what is paid above
-- that is stake.
unfoldable pub close_secured : Transaction → ℕ → Bytes → UserRecord → Loan → ℕ → ℕ → Step (Unit {0})
close_secured tx amount id user loan owed at = do
  let s = loan.schedule
  guard (if at == 0 then true else not (s.payment_interval_blocks == 0))
  guard (if at == 0 then true else ltb (paid_at s at) s.payment_count)
  let principal : ℕ =
      if at == 0
      then 0
      else s.discounted_amount * (s.payment_count - paid_at s at) / s.payment_count
  let cost = owed + principal
  guard (not (cost == 0))
  guard (leb cost amount)
  pay loan.owner (pos amount)
  closed tx id user loan 0 (pos (amount - cost))

unfoldable pub close_open : ℕ → Transaction → ℕ → Bytes → UserRecord → Loan → Bool → Step (Unit {0})
close_open height tx amount id user loan true = do
  let s = loan.schedule
  off ← of_fuel (write_off s height (suc height) 0 s.next_payment_block_number)
  close_unsecured tx amount id user loan off.0 off.1
close_open height tx amount id user loan false = do
  let s = loan.schedule
  up ← of_fuel (catch_up s height (suc height) 0 s.next_payment_block_number)
  close_secured tx amount id user loan up.0 up.1

unfoldable pub close_loan : ℕ → Transaction → ℕ → Step (Unit {0})
close_loan height tx amount = do
  opened ← open_loan tx.sender tx
  guard (not (opened.2.schedule.payment_count == 0))
  close_open height tx amount opened.0 opened.1 opened.2 opened.2.unsecured

unfoldable pub handle_treasury_close : ℕ → Transaction → Step (Unit {0})
handle_treasury_close height tx =
    if for_payment tx then close_loan height tx (pos_part tx.amount) else fail
