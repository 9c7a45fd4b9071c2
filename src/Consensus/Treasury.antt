-- ===== src/Consensus/Treasury.antt =====
-- What the treasury handlers of src/astreum/consensus/transaction/treasury share: the discount of
-- discount.py, the guarantees of utils.py, the loops over overdue payments, and how a loan is opened
-- and written. The numbers of a loan record are not negative, its interval is positive, as the handler
-- of borrow makes it, and its next payment lies after its creation.
pub mod Repay
pub mod Close
pub mod Trade
pub mod Guarantees
pub mod Borrow
pub mod Conserve
pub mod Loops
pub mod Records
pub mod Guarantors
mod Tests
use lib_py.Base.{
  ℕ, zero, suc, ◌+◌, ◌-◌, ◌*◌, ◌/◌, ◌%◌, ◌^◌, ◌≡◌, refl, Bool, true, false, not, ◌||◌, Option, none,
  some, List, [], ◌∷◌, if◌then◌else◌, ltb, leb, ◌==◌,
}
use lib_py.Base.Int.{ℤ, pos, negsuc, pos_part, ◌+ℤ◌, ◌-ℤ◌, leb_ℤ, eqb_ℤ, max_ℤ}
use lib_py.Base.Bytes.{Bytes, bytes_eq}
use lib_py.Consensus.Loan.{
  TreasuryLoanRecord, paid_at, paid_payment_count, interest_paid_delta, final_payment, advance,
}
use lib_py.Consensus.Ledger.{
  Loan, UserRecord, Account, Block, Outcome, done, failed, aborted, Step, pure, fail, next, ◌>>=◌,
  ◌>>◌, guard, need, find, get_account, set_account, pay, put_user, add_default, treasury_address,
  Transaction, loan_transaction_id,
}

-- The quotient at the end of calculate_discounted_amount.
unfoldable pub discount_quotient : ℕ → ℕ → Option ℕ
discount_quotient numerator denominator =
    if denominator == 0 || numerator == 0
    then none
    else if ltb (numerator / denominator) 1
    then none
    else some (numerator / denominator)

-- Numerator and denominator of the quotient are both negated if the denominator is negative.
unfoldable pub discounted : ℕ → ℕ → ℕ → ℕ → Option ℕ
discounted payment count pn pd =
    if ltb pd pn
    then discount_quotient (payment * pd * (pn ^ count - pd ^ count)) (pn ^ count * (pn - pd))
    else discount_quotient (payment * pd * (pd ^ count - pn ^ count)) (pn ^ count * (pd - pn))

unfoldable pub calculate_discounted_amount : ℕ → ℕ → ℕ → ℤ → ℤ → Option ℕ
calculate_discounted_amount payment interval count rate_numerator rate_denominator =
    let factor_numerator = rate_denominator +ℤ rate_numerator in
    if payment == 0
      || (interval == 0
          || (count == 0 || (leb_ℤ rate_denominator (pos 0) || leb_ℤ factor_numerator (pos 0))))
    then none
    else if eqb_ℤ rate_numerator (pos 0)
    then some (payment * count)
    else discounted payment count (pos_part factor_numerator ^ interval)
        (pos_part rate_denominator ^ interval)

unfoldable pub remaining_payment_count : TreasuryLoanRecord → Option ℕ
remaining_payment_count loan = elim (paid_payment_count loan) [
  | none ↦ none
  | some paid ↦ if ltb loan.payment_count paid then none else some (loan.payment_count - paid)
]

-- The loop that writes off what is overdue, on fuel: the number of payments that were missed, and
-- the next one. `none` is that the fuel ran out.
unfoldable pub write_off : TreasuryLoanRecord → ℕ → ℕ → ℕ → ℕ → Option (ℕ × ℕ)
write_off loan height zero missed at = none
write_off loan height (suc fuel) missed at =
    let later : ℕ = if at == final_payment loan then 0 else at + loan.payment_interval_blocks in
    let rest = write_off loan height fuel (suc missed) later in
    if at == 0 || leb height at then some (missed, at) else rest

-- The loop that adds up what is overdue of a secured loan.
unfoldable pub catch_up : TreasuryLoanRecord → ℕ → ℕ → ℕ → ℕ → Option (ℕ × ℕ)
catch_up loan height zero amount at = none
catch_up loan height (suc fuel) amount at =
    let later = at + loan.payment_interval_blocks in
    let more = amount + loan.payment_amount in
    let rest = catch_up loan height fuel more later in
    if at == 0 || ltb height at
    then some (amount, at)
    else if ltb (final_payment loan) later
    then some (more, 0)
    else rest

-- The loop of a claim over the payments it takes.
unfoldable pub claim_payments : TreasuryLoanRecord → ℕ → ℕ → Option ℕ
claim_payments loan zero at = some at
claim_payments loan (suc missed) at =
    let later = at + loan.payment_interval_blocks in
    let rest = claim_payments loan missed later in
    if at == final_payment loan
    then some 0
    else if ltb (final_payment loan) later
    then none
    else rest

unfoldable pub of_fuel : {A : Type 0} → Option A → Step A
of_fuel none b = (aborted, b)
of_fuel (some a) b = (done a, b)

-- The dict of what is returned to each guarantor.
unfoldable pub add_returned : Bytes → ℕ → List (Bytes × ℕ) → List (Bytes × ℕ)
add_returned key amount [] = (key, amount) ∷ []
add_returned key amount ((k, n) ∷ rest) =
    let others = add_returned key amount rest in
    if bytes_eq k key then (k, n + amount) ∷ rest else (k, n) ∷ others

unfoldable pub returned_by_guarantor :
    ℕ → ℕ → List (Bytes × Bytes × ℕ) → List (Bytes × ℕ) → List (Bytes × ℕ)
returned_by_guarantor paid count [] dict = dict
returned_by_guarantor paid count ((guarantor, id, amount) ∷ rest) dict =
    returned_by_guarantor paid count rest (add_returned guarantor (amount * paid / count) dict)

unfoldable pub release_record : Bytes → ℕ → Option UserRecord → Step (Unit {0})
release_record guarantor returned none = pure tt
release_record guarantor returned (some user) =
    put_user guarantor
      (record user { guaranteed = max_ℤ (pos 0) (user.guaranteed -ℤ pos returned) })

unfoldable pub release_all : List (Bytes × ℕ) → Step (Unit {0})
release_all [] = pure tt
release_all ((guarantor, returned) ∷ rest) = do
  treasury ← get_account treasury_address
  if returned == 0 then pure tt else release_record guarantor returned (treasury.users guarantor)
  release_all rest

unfoldable pub release_guarantees : Loan → Step (Unit {0})
release_guarantees loan =
    let count = loan.schedule.payment_count in
    if count == 0
    then pure tt
    else release_all
        (returned_by_guarantor (count - loan.missed_count) count loan.claimed_guarantees [])

unfoldable pub find_loan : Bytes → List (Bytes × Loan) → Option Loan
find_loan key [] = none
find_loan key ((k, loan) ∷ rest) =
    let other = find_loan key rest in if bytes_eq k key then some loan else other

unfoldable pub replace_loan : Bytes → Loan → List (Bytes × Loan) → List (Bytes × Loan)
replace_loan key loan [] = (key, loan) ∷ []
replace_loan key loan ((k, old) ∷ rest) =
    let others = replace_loan key loan rest in
    if bytes_eq k key then (k, loan) ∷ rest else (k, old) ∷ others

unfoldable pub put_loan : Bytes → Loan → UserRecord → UserRecord
put_loan id loan user = record user { loans = replace_loan id loan user.loans }

abbrev pub set_next : Loan → ℕ → ℕ → Loan
set_next loan at missed = record loan {
  schedule = record loan.schedule { next_payment_block_number = at };
  missed_count = loan.missed_count + missed;
}

-- The user and the loan that a transaction names, open, in the records of the borrower.
unfoldable pub open_loan : Bytes → Transaction → Step (Bytes × UserRecord × Loan)
open_loan borrower tx = do
  treasury ← get_account treasury_address
  id ← need (loan_transaction_id tx)
  user ← need (treasury.users borrower)
  loan ← need (find_loan id user.loans)
  guard (not (loan.schedule.next_payment_block_number == 0))
  pure (id, user, loan)

-- What the handlers ask of recipient and sender.
abbrev pub to_treasury : Transaction → Bool
to_treasury tx =
    if bytes_eq tx.recipient treasury_address
    then not (bytes_eq tx.sender treasury_address)
    else false

unfoldable pub for_payment : Transaction → Bool
for_payment tx = if to_treasury tx then not (leb_ℤ tx.amount (pos 0)) else false

-- The number of payments that are written off, and the next payment.
unfoldable pub overdue : ℕ → Loan → Step (ℕ × ℕ)
overdue height loan =
    let at = loan.schedule.next_payment_block_number in
    if loan.unsecured
    then of_fuel (write_off loan.schedule height (suc height) 0 at)
    else pure (0, at)

-- `account.balance -= amount` where the account covers it.
unfoldable pub take : Bytes → ℕ → Step (Unit {0})
take key amount = do
  account ← get_account key
  guard (leb_ℤ (pos amount) account.balance)
  set_account key (record account { balance = account.balance -ℤ pos amount })
