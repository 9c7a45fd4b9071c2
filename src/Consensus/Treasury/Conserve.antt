-- ===== src/Consensus/Treasury/Conserve.antt =====
-- What the steps that the treasury's handlers share add to the sum of the balances.
pub mod Repay
pub mod Close
pub mod Trade
pub mod Borrow
use lib_py.Base.{
  ℕ, ◌-◌, ◌≡◌, refl, sym, ap, Bool, true, false, Option, none, some, List, [], ◌∷◌, if◌then◌else◌,
  leb, ◌==◌, arith, Bool-cases, inl, inr, leb→le,
}
use lib_py.Base.Int.{ℤ, pos, pos_part, ◌+ℤ◌, ◌-ℤ◌, leb_ℤ, eqb_ℤ, int_laws}
use lib_py.Base.Bytes.{Bytes}
use lib_py.Consensus.Ledger.{
  Loan, UserRecord, Account, Block, Step, Transaction, pure, find, treasury_address, get_account,
  set_account, guard, need, pay, next, ◌>>=◌,
}
use lib_py.Consensus.Ledger.Steps.{
  Adds, Gained, is_some, has, pure-Adds, fail-Adds, >>=-Adds, then-Adds, before-Adds, if-Adds,
  guard-Adds, need-Adds, get_account-Adds, pay-Adds, put_user-Adds, add_default-Adds,
  set_account-Gained,
}
use lib_py.Consensus.Treasury.{
  of_fuel, release_record, release_all, release_guarantees, open_loan, for_payment, to_treasury,
  overdue, take,
}
use lib_py.Consensus.Treasury.Repay.{
  repaid, repay_installments, repay_nothing, repay_loan, handle_treasury_repay,
}
use lib_py.Consensus.Treasury.Close.{
  closed, pay_known, pay_if_known, close_nothing, close_rest, close_unsecured, close_secured,
  close_open, close_loan, handle_treasury_close,
}
use lib_py.Consensus.Treasury.Trade.{
  set_owner, buy_at, claim_from, claim_loan, handle_treasury_claim,
}

pub of_fuel-Adds : {A : Type 0} (key : Bytes) (o : Option A) → Adds key (pos 0) (of_fuel o)
unfolding of_fuel
of_fuel-Adds key none = record { gained = λ b h. tt }
of_fuel-Adds key (some a) = pure-Adds key a

release_record-Adds :
    (key guarantor : Bytes) (n : ℕ) (o : Option UserRecord)
    → Adds key (pos 0) (release_record guarantor n o)
unfolding release_record
release_record-Adds key guarantor n none = pure-Adds key tt
release_record-Adds key guarantor n (some user) = put_user-Adds key guarantor _

release_all-Adds : (key : Bytes) (l : List (Bytes × ℕ)) → Adds key (pos 0) (release_all l)
unfolding release_all
release_all-Adds key [] = pure-Adds key tt
release_all-Adds key ((g, n) ∷ rest) =
    then-Adds key (pos 0) (get_account-Adds key treasury_address) λ t.
      then-Adds key (pos 0)
        (if-Adds key (pos 0) (n == 0) (pure-Adds key tt) (release_record-Adds key g n (t.users g)))
        λ _. release_all-Adds key rest

pub release_guarantees-Adds :
    (key : Bytes) (loan : Loan) → Adds key (pos 0) (release_guarantees loan)
unfolding release_guarantees
release_guarantees-Adds key loan =
    if-Adds key (pos 0) (loan.schedule.payment_count == 0) (pure-Adds key tt)
      (release_all-Adds key _)

pub open_loan-Adds :
    (key borrower : Bytes) (tx : Transaction) → Adds key (pos 0) (open_loan borrower tx)
unfolding open_loan
open_loan-Adds key borrower tx = then-Adds key (pos 0) (get_account-Adds key treasury_address) λ t.
    then-Adds key (pos 0) (need-Adds key _) λ id. then-Adds key (pos 0) (need-Adds key _) λ user.
      then-Adds key (pos 0) (need-Adds key _)
        λ loan. then-Adds key (pos 0) (guard-Adds key _) λ _. pure-Adds key (id, user, loan)

pub pos-pos_part : (tx : Transaction) → for_payment tx ≡ true → pos (pos_part tx.amount) ≡ tx.amount
unfolding for_payment
pos-pos_part tx h = ground arith
