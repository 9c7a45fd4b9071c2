-- ===== src/Consensus/Loan.antt =====
-- The schedule of a treasury loan: `_paid_payment_count` and `_interest_paid_delta` of
-- src/astreum/consensus/transaction/treasury/utils.py, and the arithmetic of
-- `_apply_treasury_loan_payment` of loans.py. The numbers of a loan record are heights, counts and
-- amounts and not negative. The accounts and tries that the payment writes are left out.
pub mod Schedule
pub mod Payment
mod Tests
use lib_py.Base.{
  ℕ, zero, suc, ◌+◌, ◌-◌, ◌*◌, ◌/◌, ◌%◌, Bool, true, false, ◌&&◌, ◌||◌, Option, none, some, ltb,
  leb, ◌==◌, if◌then◌else◌, ◌>>=◌,
}
use lib_py.Base.Int.{ℤ, pos, ◌-ℤ◌}

pub record TreasuryLoanRecord : Type 0 where
  pub creation_block_number : ℕ
  pub discounted_amount : ℕ
  pub payment_amount : ℕ
  pub payment_interval_blocks : ℕ
  pub next_payment_block_number : ℕ
  pub payment_count : ℕ

-- `(n - creation) // interval - 1`, of a height n after the creation.
pub paid_at : TreasuryLoanRecord → ℕ → ℕ
paid_at loan n = (n - loan.creation_block_number) / loan.payment_interval_blocks - 1

pub paid_payment_count : TreasuryLoanRecord → Option ℕ
paid_payment_count loan =
    if loan.next_payment_block_number == 0
    then some loan.payment_count
    else if loan.payment_interval_blocks == 0
    then none
    else if leb loan.next_payment_block_number loan.creation_block_number
    then none
    else if (loan.next_payment_block_number - loan.creation_block_number)
          % loan.payment_interval_blocks
        == 0
    then some (paid_at loan loan.next_payment_block_number)
    else none

pub interest_paid_delta : TreasuryLoanRecord → ℕ → ℕ → ℕ → Option ℤ
interest_paid_delta loan paid_before paid_after total =
    let scheduled_total = loan.payment_amount * total in
    let total_interest = scheduled_total - loan.discounted_amount in
    if ltb scheduled_total loan.discounted_amount
    then none
    else some
        (pos (total_interest * paid_after / total) -ℤ pos (total_interest * paid_before / total))

unfoldable pub final_payment : TreasuryLoanRecord → ℕ
final_payment loan = loan.creation_block_number + loan.payment_interval_blocks * loan.payment_count

-- The loop over the remaining payments; `none` is that the payment is refused. After the last
-- payment the number is 0, and nothing may remain.
pub advance : TreasuryLoanRecord → ℕ → ℕ → Option ℕ
advance loan zero next = some next
advance loan (suc remaining) next =
    let later = next + loan.payment_interval_blocks in
    let rest = advance loan remaining later in
    if next == 0
    then none
    else if next == final_payment loan
    then if remaining == 0 then some 0 else none
    else if ltb (final_payment loan) later
    then none
    else rest

-- The loan after the payment of an amount, and the interest it pays.
pub settle_payment : TreasuryLoanRecord → ℕ → ℕ → Option (TreasuryLoanRecord × ℤ)
settle_payment loan paid_before next =
    let paid_after : ℕ = if next == 0 then loan.payment_count else paid_at loan next in
    if ltb loan.payment_count paid_after
    then none
    else elim (interest_paid_delta loan paid_before paid_after loan.payment_count) [
      | none ↦ none
      | some delta ↦ some (record loan { next_payment_block_number = next }, delta)
    ]

pub apply_loan_payment : TreasuryLoanRecord → ℕ → Option (TreasuryLoanRecord × ℤ)
apply_loan_payment loan amount =
    if amount == 0 || (loan.payment_amount == 0 || loan.next_payment_block_number == 0)
    then none
    else if amount % loan.payment_amount == 0
    then elim (paid_payment_count loan) [
      | none ↦ none
      | some paid_before ↦
          if leb loan.payment_count paid_before
          then none
          else elim (advance loan (amount / loan.payment_amount) loan.next_payment_block_number) [
            | none ↦ none
            | some next ↦ settle_payment loan paid_before next
          ]
    ]
    else none
