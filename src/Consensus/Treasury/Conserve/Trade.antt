-- ===== src/Consensus/Treasury/Conserve/Trade.antt =====
-- What buying a loan and a claim add to the sum of the balances.
use lib_py.Base.{
  ℕ, ◌-◌, ◌≡◌, refl, sym, true, Option, none, some, if◌then◌else◌, ◌==◌, arith, Bool-cases, inl,
  inr,
}
use lib_py.Base.Int.{ℤ, pos, ◌+ℤ◌, ◌-ℤ◌, leb_ℤ, eqb_ℤ, int_laws}
use lib_py.Base.Bytes.{Bytes}
use lib_py.Consensus.Ledger.{
  Loan, UserRecord, Account, Block, Transaction, pure, find, treasury_address, get_account,
  set_account, guard, need, pay, next, ◌>>=◌,
}
use lib_py.Consensus.Ledger.Steps.{
  Adds, Gained, has, pure-Adds, fail-Adds, >>=-Adds, then-Adds, before-Adds, if-Adds, guard-Adds,
  need-Adds, pay-Adds, put_user-Adds, add_default-Adds, set_account-Gained,
}
use lib_py.Consensus.Treasury.{to_treasury, take}
use lib_py.Consensus.Treasury.Trade.{
  set_owner, buy_at, claim_from, claim_loan, handle_treasury_claim,
}
use lib_py.Consensus.Treasury.Conserve.{open_loan-Adds}

module _ (tx : Transaction) where
  abbrev s : Bytes
  s = tx.sender

  take-Gained :
      (other : Bytes) (amount : ℕ) (b : Block) (o : Option Account)
      → find other b.accounts ≡ o
      → has s b ≡ true
      → Gained s (pos 0 -ℤ pos amount) b (
          next
            (λ a. guard (leb_ℤ (pos amount) a.balance) >>= λ _.
              set_account other (record a { balance = a.balance -ℤ pos amount }))
            (need o b))
  unfolding need guard
  take-Gained other amount b none e h = tt
  take-Gained other amount b (some a) e h = elim (Bool-cases (leb_ℤ (pos amount) a.balance)) [
    | inl covered ↦ rw covered (
        set_account-Gained s other (pos 0 -ℤ pos amount)
          (λ a. record a { balance = a.balance -ℤ pos amount }) (λ a. omega int_laws) (λ a. refl) b
          a e h)
    | inr short ↦ rw short tt
  ]

  take-Adds : (other : Bytes) (amount : ℕ) → Adds s (pos 0 -ℤ pos amount) (take other amount)
  unfolding take get_account
  take-Adds other amount = record {
    gained = λ b h. take-Gained other amount b (find other b.accounts) refl h;
  }

  set_owner-Adds :
      (owner borrower id : Bytes) (user : UserRecord) (loan : Loan)
      → Adds s (pos 0) (set_owner owner borrower id user loan)
  unfolding set_owner
  set_owner-Adds owner borrower id user loan = put_user-Adds s borrower _

  buy_refund-Adds :
      (amount price : ℕ)
      → Adds s
          (pos (amount - price))
          (if amount == price then pure tt else pay s (pos (amount - price)))
  buy_refund-Adds amount price = elim (Bool-cases (amount == price)) [
    | inl e ↦
        let zero_left : pos 0 ≡ pos (amount - price) = ground arith in
        rw (e, sym zero_left) (pure-Adds s tt)
    | inr e ↦ rw e (pay-Adds s s (pos (amount - price)))
  ]

  -- The price leaves the seller, and what the offer exceeds it by comes to the buyer.
  pub buy_at-Adds :
      (amount price : ℕ) (borrower id : Bytes) (user : UserRecord) (loan : Loan)
      → Adds s
          ((pos 0 -ℤ pos price) +ℤ pos (amount - price))
          (buy_at tx amount price borrower id user loan)
  unfolding buy_at
  buy_at-Adds amount price borrower id user loan = then-Adds s _ (guard-Adds s _) λ _.
      then-Adds s _ (guard-Adds s _) λ _.
        >>=-Adds s (pos 0 -ℤ pos price) (pos (amount - price)) (take-Adds loan.owner price) λ _.
          before-Adds s (pos (amount - price)) (buy_refund-Adds amount price)
            λ _. set_owner-Adds s borrower id user loan

  module _ (sender_of : Bytes → Option Bytes) (rate : ℕ → Option (ℤ × ℤ)) where
    claim_from-Adds :
        (missed payout : ℕ) (borrower id : Bytes) (user : UserRecord) (loan : Loan)
        → Adds s (pos 0) (claim_from sender_of rate tx missed payout borrower id user loan)
    unfolding claim_from
    claim_from-Adds missed payout borrower id user loan =
        let none_added : (pos 0 -ℤ pos payout) +ℤ pos payout ≡ pos 0 = omega int_laws in
        rw (sym none_added) (
          >>=-Adds s (pos 0 -ℤ pos payout) (pos payout) (take-Adds treasury_address payout) λ _.
            before-Adds s (pos payout) (pay-Adds s loan.owner (pos payout)) λ _.
              then-Adds s (pos 0) (need-Adds s _)
                λ at. then-Adds s (pos 0) (put_user-Adds s borrower _) λ _. add_default-Adds s _)

    claim_loan-Adds : (height : ℕ) → Adds s (pos 0) (claim_loan sender_of rate height tx)
    unfolding claim_loan
    claim_loan-Adds height = then-Adds s (pos 0) (need-Adds s _) λ named.
        then-Adds s (pos 0) (need-Adds s _) λ borrower.
          then-Adds s (pos 0) (open_loan-Adds s borrower tx) λ opened.
            then-Adds s (pos 0) (guard-Adds s _) λ _. then-Adds s (pos 0) (guard-Adds s _) λ _.
              then-Adds s (pos 0) (need-Adds s _) λ remaining.
                then-Adds s (pos 0) (guard-Adds s _)
                  λ _. claim_from-Adds _ _ borrower opened.0 opened.1 opened.2

    -- A claim moves what it pays out from the treasury to the owner of the loan.
    pub handle_treasury_claim-Adds :
        (height : ℕ) → Adds s (pos 0) (handle_treasury_claim sender_of rate height tx)
    unfolding handle_treasury_claim
    handle_treasury_claim-Adds height =
        if-Adds s (pos 0) (to_treasury tx)
          (if-Adds s (pos 0) (eqb_ℤ tx.amount (pos 0)) (claim_loan-Adds height)
            (fail-Adds s (pos 0)))
          (fail-Adds s (pos 0))
