-- ===== src/Consensus/Treasury/Repay.antt =====
-- handle_treasury_repay of src/astreum/consensus/transaction/treasury/repay.py.
use lib_py.Base.{ℕ, ◌*◌, ◌/◌, ◌%◌, not, if◌then◌else◌, ltb, ◌==◌}
use lib_py.Base.Int.{ℤ, pos, pos_part, ◌+ℤ◌}
use lib_py.Base.Bytes.{Bytes}
use lib_py.Consensus.Loan.{paid_at, paid_payment_count, interest_paid_delta, advance}
use lib_py.Consensus.Ledger.{
  Loan, UserRecord, Step, pure, fail, ◌>>=◌, ◌>>◌, guard, need, pay, put_user, add_default,
  Transaction,
}
use lib_py.Consensus.Treasury.{
  release_guarantees, put_loan, set_next, open_loan, for_payment, overdue,
}

-- What is written when a payment has been settled: the loan, the user and, at the end, the guarantors.
unfoldable pub repaid : Transaction → Bytes → UserRecord → Loan → ℕ → ℕ → ℤ → Step (Unit {0})
repaid tx id user loan missed at delta = do
  let loan' = set_next loan at missed
  let written_off = pos (missed * loan.schedule.payment_amount)
  put_user tx.sender (record (put_loan id loan' user) {
    total_interest_paid = user.total_interest_paid +ℤ delta;
    defaulted = user.defaulted +ℤ written_off;
  })
  add_default written_off
  if at == 0 then release_guarantees loan' else pure tt

-- The payment where installments are left, after those that are written off.
unfoldable pub repay_installments :
    Transaction → ℕ → Bytes → UserRecord → Loan → ℕ → ℕ → Step (Unit {0})
repay_installments tx amount id user loan missed at = do
  let s = loan.schedule
  later ← need (advance s (amount / s.payment_amount) at)
  let paid_after : ℕ = if later == 0 then s.payment_count else paid_at s later
  guard (not (ltb s.payment_count paid_after))
  delta ← need (interest_paid_delta s (paid_at s at) paid_after s.payment_count)
  pay loan.owner (pos amount)
  repaid tx id user loan missed later delta

-- Every installment that was left is overdue: the amount goes back.
unfoldable pub repay_nothing : Transaction → ℕ → Bytes → UserRecord → Loan → ℕ → Step (Unit {0})
repay_nothing tx amount id user loan missed = do
  let s = loan.schedule
  pay tx.sender (pos amount)
  delta ← need (interest_paid_delta s s.payment_count s.payment_count s.payment_count)
  repaid tx id user loan missed 0 delta

unfoldable pub repay_loan : ℕ → Transaction → ℕ → Step (Unit {0})
repay_loan height tx amount = do
  opened ← open_loan tx.sender tx
  let s = opened.2.schedule
  guard (not (s.payment_amount == 0))
  guard (amount % s.payment_amount == 0)
  paid_before ← need (paid_payment_count s)
  guard (ltb paid_before s.payment_count)
  off ← overdue height opened.2
  if off.1 == 0
      then repay_nothing tx amount opened.0 opened.1 opened.2 off.0
      else repay_installments tx amount opened.0 opened.1 opened.2 off.0 off.1

unfoldable pub handle_treasury_repay : ℕ → Transaction → Step (Unit {0})
handle_treasury_repay height tx =
    if for_payment tx then repay_loan height tx (pos_part tx.amount) else fail
