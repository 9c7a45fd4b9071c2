-- ===== src/Consensus/Treasury/Tests.antt =====
-- The treasury's loops and discount on small inputs.
use lib_py.Base.{ℕ, [], ◌∷◌, ◌≡◌, refl, ◌⊎◌, ◌≤◌, ◌<◌, some, arith}
use lib_py.Base.Int.{ℤ, pos, ◌+ℤ◌, ◌-ℤ◌, ◌*ℤ◌}
use lib_py.Consensus.Loan.{TreasuryLoanRecord, final_payment}
use lib_py.Consensus.Treasury.{
  write_off, catch_up, calculate_discounted_amount, discounted, discount_quotient,
}
use lib_py.Consensus.Treasury.Loops.{overdue_total}
use lib_py.Base.Bytes.{Bytes, bytes_eq}
use lib_py.Consensus.Ledger.{
  Guarantee, UserRecord, Account, new_account, new_user, find, put, Block, Outcome, done, int_cell,
  other_cell, Transaction, storage_address, treasury_address, need, guard, get_account, set_account,
  add_address, write,
}
use lib_py.Consensus.Treasury.{for_payment, find_loan, put_loan, replace_loan}
use lib_py.Consensus.Treasury.Borrow.{
  handle_treasury_borrow, request_in, borrow_as, borrow_against, borrow_unsecured,
  discounted_amount, insurance_fee, lend_unsecured, lend, add_loaned,
}
use lib_py.Consensus.Treasury.Guarantees.{
  data_nodes, are_distinct, is_listed, claim_refs, state_of, find_state, put_state, claim_guarantee,
  put_guarantee, within_interest, total_price, is_free, pay_guarantors, pay_or_create, pay_found,
  write_user, move,
}
use lib_py.Consensus.Treasury.Guarantors.{borrow-own_guarantees}
use lib_py.Consensus.Treasury.Records.{Same, record_of}

-- 100 after one period at 1 in 10 are worth 90 now, and two of them 173.
one_period : calculate_discounted_amount 100 1 1 (pos 1) (pos 10) ≡ some 90
unfolding calculate_discounted_amount discounted discount_quotient ◌+ℤ◌
one_period = refl

two_periods : calculate_discounted_amount 100 1 2 (pos 1) (pos 10) ≡ some 173
unfolding calculate_discounted_amount discounted discount_quotient ◌+ℤ◌
two_periods = refl

abbrev loan : TreasuryLoanRecord
loan = record {
  creation_block_number = 0;
  discounted_amount = 10;
  payment_amount = 5;
  payment_interval_blocks = 4;
  next_payment_block_number = 4;
  payment_count = 3;
}

written_off : write_off loan 9 10 0 4 ≡ some (2, 12)
unfolding write_off final_payment
written_off = refl

caught_up : catch_up loan 12 13 0 4 ≡ some (15, 0)
unfolding catch_up final_payment
caught_up = refl

overdue_total_example :
    ((m : ℕ) × (next : ℕ) × (write_off loan 9 10 0 4 ≡ some (m, next)) × ((next ≡ 0) ⊎ (9 ≤ next)))
    × ((t : ℕ) × (next : ℕ) × (catch_up loan 9 10 0 4 ≡ some (t, next)) × ((next ≡ 0) ⊎ (9 < next)))
overdue_total_example = overdue_total loan 9 4 (omega arith)

-- Alice backs a loan of 20 with her own guarantee of 100.
abbrev alice : Bytes
alice = 1 ∷ []

abbrev guarantee : Guarantee
guarantee = record {
  amount = 100;
  duration = 8;
  price = 0;
  expiry = 50;
  claimed_by = storage_address;
}

abbrev record_of_alice : UserRecord
record_of_alice = record new_user {
  guarantees = λ k. some guarantee;
  total_interest_paid = pos 100;
}

abbrev with_balance : ℤ → Account
with_balance balance = record new_account { balance = balance; users = λ k. some record_of_alice }

abbrev before : Block
before = record {
  accounts = (alice, with_balance (pos 10)) ∷ (treasury_address, with_balance (pos 500)) ∷ [];
  involved = [];
  global_loaned = pos 0;
  global_defaulted = pos 0;
  global_loan_count = pos 0;
  storage_votes = pos 0;
  storage_claim_count = pos 0;
}

abbrev asked : Transaction
asked = record {
  chain_id = pos 1;
  amount = pos 10;
  counter = pos 0;
  cost_limit = pos 0;
  cells = int_cell (pos 1) ∷ int_cell (pos 4) ∷ int_cell (pos 2) ∷ other_cell ∷ [];
  recipient = treasury_address;
  sender = alice;
}

abbrev borrowed : Outcome (Unit {0}) × Block
borrowed =
    handle_treasury_borrow (λ n. some (pos 0, pos 1)) 9 (7 ∷ []) asked (some ((alice, 5 ∷ []) ∷ []))
      before

borrowed_done : borrowed ≡ (done tt, borrowed.1)
unfolding handle_treasury_borrow for_payment get_account need guard find bytes_eq request_in
    data_nodes borrow_as borrow_against borrow_unsecured are_distinct is_listed discounted_amount
    calculate_discounted_amount discounted discount_quotient claim_refs state_of find_state
    put_state claim_guarantee put_guarantee within_interest insurance_fee lend_unsecured total_price
    is_free find_loan pay_guarantors pay_or_create pay_found set_account put add_address write_user
    write lend put_loan replace_loan move add_loaned ◌+ℤ◌ ◌-ℤ◌ ◌*ℤ◌
borrowed_done = refl

borrow-own_guarantees_example : Same record_of_alice (record_of alice borrowed.1)
unfolding find bytes_eq
borrow-own_guarantees_example =
    borrow-own_guarantees (λ n. some (pos 0, pos 1)) 9 (7 ∷ []) asked (some ((alice, 5 ∷ []) ∷ []))
      before borrowed.1 (with_balance (pos 500)) refl borrowed_done
