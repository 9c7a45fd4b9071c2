-- ===== src/Consensus/Treasury/Trade.antt =====
-- handle_treasury_buy and handle_treasury_claim of src/astreum/consensus/transaction/treasury, buy.py
-- and claim.py. `sender_of` is the sender of a transaction in storage and `rate` is
-- windowed_rate_fraction.
use lib_py.Base.{ℕ, zero, suc, ◌+◌, ◌-◌, ◌*◌, ◌/◌, not, Option, if◌then◌else◌, ltb, leb, ◌==◌}
use lib_py.Base.Int.{ℤ, pos, pos_part, ◌+ℤ◌, eqb_ℤ}
use lib_py.Base.Bytes.{Bytes, bytes_eq}
use lib_py.Consensus.Loan.{TreasuryLoanRecord}
use lib_py.Consensus.Ledger.{
  Loan, UserRecord, Step, pure, fail, ◌>>=◌, ◌>>◌, guard, need, pay, put_user, add_default,
  treasury_address, Transaction, loan_transaction_id,
}
use lib_py.Consensus.Treasury.{
  calculate_discounted_amount, remaining_payment_count, claim_payments, put_loan, set_next,
  open_loan, to_treasury, for_payment, take,
}

-- The power of two that fits the rest of the loan's time: `while power * 2 <= remaining_duration`.
unfoldable pub window_of : ℕ → ℕ → ℕ → ℕ
window_of zero duration power = power
window_of (suc fuel) duration power =
    let more = window_of fuel duration (power * 2) in
    if leb (power * 2) duration then more else power

-- The loan with its new owner, in the records of the borrower.
unfoldable pub set_owner : Bytes → Bytes → Bytes → UserRecord → Loan → Step (Unit {0})
set_owner owner borrower id user loan =
    put_user borrower (put_loan id (record loan { owner = owner }) user)

unfoldable pub buy_at : Transaction → ℕ → ℕ → Bytes → Bytes → UserRecord → Loan → Step (Unit {0})
buy_at tx amount price borrower id user loan = do
  guard (not (price == 0))
  guard (leb price amount)
  take loan.owner price
  if amount == price then pure tt else pay tx.sender (pos (amount - price))
  set_owner tx.sender borrower id user loan

module _ (sender_of : Bytes → Option Bytes) (rate : ℕ → Option (ℤ × ℤ)) where
  unfoldable pub buy_loan : Transaction → ℕ → Step (Unit {0})
  buy_loan tx amount = do
    named ← need (loan_transaction_id tx)
    borrower ← need (sender_of named)
    opened ← open_loan borrower tx
    let s = opened.2.schedule
    guard (not (bytes_eq opened.2.owner tx.sender))
    remaining ← need (remaining_payment_count s)
    guard (not (remaining == 0))
    let duration = s.payment_interval_blocks * remaining
    fraction ← need (rate (window_of duration duration 1))
    price ← need (
        calculate_discounted_amount s.payment_amount s.payment_interval_blocks remaining fraction.0
          fraction.1)
    buy_at tx amount price borrower opened.0 opened.1 opened.2

  unfoldable pub handle_treasury_buy : Transaction → Step (Unit {0})
  handle_treasury_buy tx = if for_payment tx then buy_loan tx (pos_part tx.amount) else fail

  -- How many payments are due at a height, no more than are left.
  unfoldable pub missed_payments : TreasuryLoanRecord → ℕ → ℕ → ℕ
  missed_payments s height remaining =
      let missed : ℕ =
        if ltb height s.next_payment_block_number
        then 0
        else (height - s.next_payment_block_number) / s.payment_interval_blocks + 1 in
      if ltb remaining missed then remaining else missed

  unfoldable pub claim_from :
      Transaction → ℕ → ℕ → Bytes → Bytes → UserRecord → Loan → Step (Unit {0})
  claim_from tx missed payout borrower id user loan = do
    take treasury_address payout
    pay loan.owner (pos payout)
    at ← need (claim_payments loan.schedule missed loan.schedule.next_payment_block_number)
    let written : ℤ = if loan.unsecured then pos payout else pos 0
    put_user borrower
        (record (put_loan id (set_next loan at 0) user) { defaulted = user.defaulted +ℤ written })
    add_default written

  unfoldable pub claim_loan : ℕ → Transaction → Step (Unit {0})
  claim_loan height tx = do
    named ← need (loan_transaction_id tx)
    borrower ← need (sender_of named)
    opened ← open_loan borrower tx
    let s = opened.2.schedule
    guard (not (bytes_eq opened.2.owner treasury_address))
    guard (bytes_eq opened.2.owner tx.sender)
    remaining ← need (remaining_payment_count s)
    let missed = missed_payments s height remaining
    guard (not (missed == 0))
    claim_from tx missed (missed * s.payment_amount) borrower opened.0 opened.1 opened.2

  unfoldable pub handle_treasury_claim : ℕ → Transaction → Step (Unit {0})
  handle_treasury_claim height tx =
      if to_treasury tx
      then if eqb_ℤ tx.amount (pos 0) then claim_loan height tx else fail
      else fail
