-- ===== src/Consensus/Loan/Tests.antt =====
-- A loan of four payments of 30 every 10 blocks, made at height 100 for 100.
use lib_py.Base.{◌≡◌, refl, some}
use lib_py.Base.Int.{pos, ◌-ℤ◌}
use lib_py.Consensus.Loan.{
  TreasuryLoanRecord, paid_at, paid_payment_count, interest_paid_delta, final_payment, advance,
  settle_payment, apply_loan_payment,
}

abbrev loan : TreasuryLoanRecord
loan = record {
  creation_block_number = 100;
  discounted_amount = 100;
  payment_amount = 30;
  payment_interval_blocks = 10;
  next_payment_block_number = 110;
  payment_count = 4;
}

payment_run :
    apply_loan_payment loan 60
    ≡ some (
      record {
        creation_block_number = 100;
        discounted_amount = 100;
        payment_amount = 30;
        payment_interval_blocks = 10;
        next_payment_block_number = 130;
        payment_count = 4;
      },
      pos 10,
    )
unfolding apply_loan_payment paid_payment_count paid_at advance final_payment settle_payment
    interest_paid_delta ◌-ℤ◌
payment_run = refl
