-- ===== src/Consensus/Treasury/Conserve/Repay.antt =====
-- What a repayment adds to the sum of the balances.
use lib_py.Base.{ℕ, ◌==◌, Bool-cases, inl, inr}
use lib_py.Base.Int.{ℤ, pos, pos_part}
use lib_py.Base.Bytes.{Bytes}
use lib_py.Consensus.Ledger.{Loan, UserRecord, Transaction}
use lib_py.Consensus.Ledger.Steps.{
  Adds, pure-Adds, fail-Adds, then-Adds, before-Adds, if-Adds, guard-Adds, need-Adds, pay-Adds,
  put_user-Adds, add_default-Adds,
}
use lib_py.Consensus.Treasury.{for_payment, overdue}
use lib_py.Consensus.Treasury.Repay.{
  repaid, repay_installments, repay_nothing, repay_loan, handle_treasury_repay,
}
use lib_py.Consensus.Treasury.Conserve.{
  of_fuel-Adds, release_guarantees-Adds, open_loan-Adds, pos-pos_part,
}

module _ (tx : Transaction) where
  abbrev s : Bytes
  s = tx.sender

  repaid-Adds :
      (id : Bytes) (user : UserRecord) (loan : Loan) (missed at : ℕ) (delta : ℤ)
      → Adds s (pos 0) (repaid tx id user loan missed at delta)
  unfolding repaid
  repaid-Adds id user loan missed at delta = then-Adds s (pos 0) (put_user-Adds s s _) λ _.
      then-Adds s (pos 0) (add_default-Adds s _)
        λ _. if-Adds s (pos 0) (at == 0) (release_guarantees-Adds s _) (pure-Adds s tt)

  repay_installments-Adds :
      (amount : ℕ) (id : Bytes) (user : UserRecord) (loan : Loan) (missed at : ℕ)
      → Adds s (pos amount) (repay_installments tx amount id user loan missed at)
  unfolding repay_installments
  repay_installments-Adds amount id user loan missed at =
      then-Adds s (pos amount) (need-Adds s _) λ later.
        then-Adds s (pos amount) (guard-Adds s _) λ _.
          then-Adds s (pos amount) (need-Adds s _) λ delta.
            before-Adds s (pos amount) (pay-Adds s loan.owner (pos amount))
              λ _. repaid-Adds id user loan missed later delta

  repay_nothing-Adds :
      (amount : ℕ) (id : Bytes) (user : UserRecord) (loan : Loan) (missed : ℕ)
      → Adds s (pos amount) (repay_nothing tx amount id user loan missed)
  unfolding repay_nothing
  repay_nothing-Adds amount id user loan missed =
      before-Adds s (pos amount) (pay-Adds s s (pos amount))
        λ _. then-Adds s (pos 0) (need-Adds s _) λ delta. repaid-Adds id user loan missed 0 delta

  overdue-Adds : (height : ℕ) (loan : Loan) → Adds s (pos 0) (overdue height loan)
  unfolding overdue
  overdue-Adds height loan = if-Adds s (pos 0) loan.unsecured (of_fuel-Adds s _) (pure-Adds s _)

  repay_loan-Adds : (height amount : ℕ) → Adds s (pos amount) (repay_loan height tx amount)
  unfolding repay_loan
  repay_loan-Adds height amount = then-Adds s (pos amount) (open_loan-Adds s s tx) λ opened.
      then-Adds s (pos amount) (guard-Adds s _) λ _. then-Adds s (pos amount) (guard-Adds s _) λ _.
        then-Adds s (pos amount) (need-Adds s _) λ before.
          then-Adds s (pos amount) (guard-Adds s _) λ _.
            then-Adds s (pos amount) (overdue-Adds height opened.2) λ off.
              if-Adds s (pos amount) (off.1 == 0) (repay_nothing-Adds amount _ _ _ _)
                (repay_installments-Adds amount _ _ _ _ _)

  -- A payment adds what the sender is charged afterwards.
  pub handle_treasury_repay-Adds : (height : ℕ) → Adds s tx.amount (handle_treasury_repay height tx)
  unfolding handle_treasury_repay
  handle_treasury_repay-Adds height = elim (Bool-cases (for_payment tx)) [
    | inl e ↦ rw e (rw (pos-pos_part tx e) at (repay_loan-Adds height (pos_part tx.amount)))
    | inr e ↦ rw e (fail-Adds s tx.amount)
  ]
