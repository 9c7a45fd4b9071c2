-- ===== src/Consensus/Treasury/Conserve/Close.antt =====
-- What closing a loan adds to the sum of the balances.
use lib_py.Base.{
  ℕ, ◌-◌, ◌≡◌, refl, sym, ap, Bool, true, false, Option, none, some, if◌then◌else◌, leb, ◌==◌,
  arith, Bool-cases, inl, inr, leb→le,
}
use lib_py.Base.Int.{ℤ, pos, pos_part, ◌+ℤ◌, int_laws}
use lib_py.Base.Bytes.{Bytes}
use lib_py.Consensus.Ledger.{
  Loan, UserRecord, Account, Block, Step, Transaction, pure, find, guard, ◌>>=◌,
}
use lib_py.Consensus.Ledger.Steps.{
  Adds, Gained, is_some, has, pure-Adds, fail-Adds, >>=-Adds, then-Adds, before-Adds, if-Adds,
  guard-Adds, pay-Adds, put_user-Adds, add_default-Adds, set_account-Gained,
}
use lib_py.Consensus.Treasury.{for_payment}
use lib_py.Consensus.Treasury.Close.{
  closed, pay_known, pay_if_known, close_nothing, close_rest, close_unsecured, close_secured,
  close_open, close_loan, handle_treasury_close,
}
use lib_py.Consensus.Treasury.Conserve.{
  of_fuel-Adds, release_guarantees-Adds, open_loan-Adds, pos-pos_part,
}

module _ (tx : Transaction) where
  abbrev s : Bytes
  s = tx.sender

  closed-Adds :
      (id : Bytes) (user : UserRecord) (loan : Loan) (missed : ℕ) (excess : ℤ)
      → Adds s (pos 0) (closed tx id user loan missed excess)
  unfolding closed
  closed-Adds id user loan missed excess =
      then-Adds s (pos 0) (put_user-Adds s s _)
        λ _. then-Adds s (pos 0) (add_default-Adds s _) λ _. release_guarantees-Adds s _

  pay_known-Gained :
      (x : ℤ) (b : Block) (o : Option Account)
      → find s b.accounts ≡ o
      → has s b ≡ true
      → Gained s x b (pay_known s x o b)
  unfolding pay_known
  pay_known-Gained x b none e h = absurd (cc (ap is_some e))
  pay_known-Gained x b (some a) e h =
      set_account-Gained s s x (λ a. record a { balance = a.balance +ℤ x }) (λ a. refl) (λ a. refl)
        b a e h

  pay_if_known-Adds : (x : ℤ) → Adds s x (pay_if_known s x)
  unfolding pay_if_known
  pay_if_known-Adds x = record { gained = λ b h. pay_known-Gained x b (find s b.accounts) refl h }

  close_nothing-Adds :
      (amount : ℕ) (id : Bytes) (user : UserRecord) (loan : Loan) (missed : ℕ)
      → Adds s (pos amount) (close_nothing tx amount id user loan missed)
  unfolding close_nothing
  close_nothing-Adds amount id user loan missed =
      before-Adds s (pos amount) (pay-Adds s s (pos amount))
        λ _. closed-Adds id user loan missed (pos 0)

  refund-Adds :
      (amount cost : ℕ)
      → Adds s
          (pos (amount - cost))
          (if amount == cost then pure tt else pay_if_known s (pos (amount - cost)))
  refund-Adds amount cost = elim (Bool-cases (amount == cost)) [
    | inl e ↦
        let zero_left : pos 0 ≡ pos (amount - cost) = ground arith in
        rw (e, sym zero_left) (pure-Adds s tt)
    | inr e ↦ rw e (pay_if_known-Adds (pos (amount - cost)))
  ]

  guarded-Adds :
      {A : Type 0} (x : ℤ) (c : Bool) {m : Step A}
      → (c ≡ true → Adds s x m)
      → Adds s x (guard c >>= λ _. m)
  unfolding guard
  guarded-Adds x true h = then-Adds s x (pure-Adds s tt) λ _. h refl
  guarded-Adds x false h = record { gained = λ b e. tt }

  close_rest-Adds :
      (amount cost : ℕ) (id : Bytes) (user : UserRecord) (loan : Loan) (missed : ℕ)
      → Adds s (pos amount) (close_rest tx amount cost id user loan missed)
  unfolding close_rest
  close_rest-Adds amount cost id user loan missed = then-Adds s (pos amount) (guard-Adds s _) λ _.
      guarded-Adds (pos amount) (leb cost amount) λ fits.
        let sum : pos cost +ℤ pos (amount - cost) ≡ pos amount =
          omega (int_laws, leb→le cost amount fits) in
        rw (sym sum) (
          >>=-Adds s (pos cost) (pos (amount - cost)) (pay-Adds s loan.owner (pos cost)) λ _.
            before-Adds s (pos (amount - cost)) (refund-Adds amount cost)
              λ _. closed-Adds id user loan missed (pos 0))

  close_unsecured-Adds :
      (amount : ℕ) (id : Bytes) (user : UserRecord) (loan : Loan) (missed at : ℕ)
      → Adds s (pos amount) (close_unsecured tx amount id user loan missed at)
  unfolding close_unsecured
  close_unsecured-Adds amount id user loan missed at =
      then-Adds s (pos amount) (guard-Adds s _) λ _.
        if-Adds s (pos amount) _ (close_nothing-Adds amount id user loan missed)
          (close_rest-Adds amount _ id user loan missed)

  close_secured-Adds :
      (amount : ℕ) (id : Bytes) (user : UserRecord) (loan : Loan) (owed at : ℕ)
      → Adds s (pos amount) (close_secured tx amount id user loan owed at)
  unfolding close_secured
  close_secured-Adds amount id user loan owed at = then-Adds s (pos amount) (guard-Adds s _) λ _.
      then-Adds s (pos amount) (guard-Adds s _) λ _. then-Adds s (pos amount) (guard-Adds s _) λ _.
        then-Adds s (pos amount) (guard-Adds s _) λ _.
          before-Adds s (pos amount) (pay-Adds s loan.owner (pos amount))
            λ _. closed-Adds id user loan 0 _

  close_open-Adds :
      (height amount : ℕ) (id : Bytes) (user : UserRecord) (loan : Loan) (unsecured : Bool)
      → Adds s (pos amount) (close_open height tx amount id user loan unsecured)
  unfolding close_open
  close_open-Adds height amount id user loan true =
      then-Adds s (pos amount) (of_fuel-Adds s _)
        λ off. close_unsecured-Adds amount id user loan off.0 off.1
  close_open-Adds height amount id user loan false =
      then-Adds s (pos amount) (of_fuel-Adds s _)
        λ up. close_secured-Adds amount id user loan up.0 up.1

  close_loan-Adds : (height amount : ℕ) → Adds s (pos amount) (close_loan height tx amount)
  unfolding close_loan
  close_loan-Adds height amount = then-Adds s (pos amount) (open_loan-Adds s s tx) λ opened.
      then-Adds s (pos amount) (guard-Adds s _)
        λ _. close_open-Adds height amount opened.0 opened.1 opened.2 opened.2.unsecured

  pub handle_treasury_close-Adds : (height : ℕ) → Adds s tx.amount (handle_treasury_close height tx)
  unfolding handle_treasury_close
  handle_treasury_close-Adds height = elim (Bool-cases (for_payment tx)) [
    | inl e ↦ rw e (rw (pos-pos_part tx e) at (close_loan-Adds height (pos_part tx.amount)))
    | inr e ↦ rw e (fail-Adds s tx.amount)
  ]
