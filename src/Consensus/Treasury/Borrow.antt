-- ===== src/Consensus/Treasury/Borrow.antt =====
-- handle_treasury_borrow of src/astreum/consensus/transaction/treasury/borrow.py. The account of the
-- sender and that of the treasury are those that the cache holds, and their change here is no
-- `set_account`. The insurance fee of a loan, which nothing reads, is left out of its record.
-- `references` is the list that _decode_guarantee_refs reads from the storage, `rate` is
-- windowed_rate_fraction.
use lib_py.Base.{
  ℕ, zero, suc, ◌+◌, ◌*◌, Bool, true, false, ◌||◌, Option, none, some, List, [], ◌∷◌, if◌then◌else◌,
  leb, ◌==◌,
}
use lib_py.Base.Int.{ℤ, pos, negsuc, pos_part, ◌+ℤ◌, ◌-ℤ◌, ◌*ℤ◌, leb_ℤ, ltb_ℤ}
use lib_py.Base.Bytes.{Bytes}
use lib_py.Machine.Operators.Arithmetic.{floor_div}
use lib_py.Consensus.Ledger.{
  Loan, UserRecord, Account, done, Step, pure, fail, abort, ◌>>=◌, ◌>>◌, guard, need, get_account,
  DataCell, int_cell, Transaction, treasury_address,
}
use lib_py.Consensus.Treasury.{
  calculate_discounted_amount, remaining_payment_count, find_loan, put_loan, for_payment,
}
use lib_py.Consensus.Treasury.Guarantees.{
  data_nodes, write_user, move, user_or_new, is_free, Claimed, claim_refs, are_distinct,
  within_interest, total_price, pay_guarantors,
}

-- The elements of the data that are loaded.
unfoldable pub add_loaned : ℕ → Step (Unit {0})
add_loaned amount b = (
  done tt,
  record b {
    global_loaned = b.global_loaned +ℤ pos amount;
    global_loan_count = b.global_loan_count +ℤ pos 1;
  },
)

-- The share of the principal that has been lost so far, by the borrower and on the whole.
unfoldable pub insurance_fee : ℕ → UserRecord → Step ℤ
insurance_fee discounted user b =
    let denominator = user.loaned *ℤ b.global_loan_count +ℤ b.global_loaned in
    let numerator =
      pos discounted *ℤ (user.defaulted *ℤ b.global_loan_count +ℤ b.global_defaulted) in
    if leb_ℤ b.global_loan_count (pos 0)
    then pure (pos 0) b
    else if leb_ℤ denominator (pos 0)
    then fail b
    else pure (floor_div numerator denominator) b

unfoldable pub secured_loan_remaining_total : List (Bytes × Loan) → Option ℕ
secured_loan_remaining_total [] = some 0
secured_loan_remaining_total ((id, loan) ∷ rest) =
    let others = secured_loan_remaining_total rest in
    if loan.unsecured || loan.schedule.next_payment_block_number == 0
    then others
    else elim (remaining_payment_count loan.schedule) [
      | none ↦ none
      | some count ↦ elim others [
        | none ↦ none
        | some n ↦ some (count * loan.schedule.payment_amount + n)
      ]
    ]

-- What is asked for: the amount of a payment, the interval and the number of the payments.
pub record Terms : Type 0 where
  pub amount : ℕ
  pub interval : ℕ
  pub count : ℕ

-- The loan type and the terms. For an interval or a count that is not positive there is no discounted
-- amount, as there is none for 0.
unfoldable pub request_in : ℕ → List DataCell → Option (ℤ × Terms)
request_in amount (int_cell loan_type ∷ int_cell interval ∷ int_cell count ∷ refs ∷ []) =
    some
      (loan_type, record { amount = amount; interval = pos_part interval; count = pos_part count })
request_in amount _ = none

abbrev pub request_of : Transaction → Option (ℤ × Terms)
request_of tx = request_in (pos_part tx.amount) (data_nodes tx.cells)

abbrev pub new_loan : ℕ → Terms → ℕ → Bool → List (Bytes × Bytes × ℕ) → Loan
new_loan height t discounted unsecured entries = record {
  schedule = record {
    creation_block_number = height;
    discounted_amount = discounted;
    payment_amount = t.amount;
    payment_interval_blocks = t.interval;
    next_payment_block_number = height + t.interval;
    payment_count = t.count;
  };
  unsecured = unsecured;
  claimed_guarantees = entries;
  missed_count = 0;
  owner = treasury_address;
}

-- The record of the borrower, and what leaves the treasury and reaches the borrower.
unfoldable pub lend : Bytes → UserRecord → ℤ → ℤ → Step (Unit {0})
lend borrower user paid received = do
  write_user borrower user
  move treasury_address (pos 0 -ℤ paid)
  move borrower received

module _ (rate : ℕ → Option (ℤ × ℤ)) (height : ℕ) (hash : Bytes) (tx : Transaction) where
  -- The amount that a loan of these terms is worth now.
  unfoldable pub discounted_amount : Terms → Step ℕ
  discounted_amount t = do
    fraction ← need (rate (t.interval * t.count))
    need (calculate_discounted_amount t.amount t.interval t.count fraction.0 fraction.1)

  unfoldable pub borrow_secured : Account → Terms → Step (Unit {0})
  borrow_secured treasury t = do
    discounted ← discounted_amount t
    user ← need (treasury.users tx.sender)
    owed ← need (secured_loan_remaining_total user.loans)
    guard (leb_ℤ (pos (t.amount * t.count)) (user.balance -ℤ pos owed))
    guard (leb_ℤ (pos discounted) treasury.balance)
    guard (is_free (find_loan hash user.loans))
    lend tx.sender (put_loan hash (new_loan height t discounted false []) user) (pos discounted)
        (pos discounted)

  -- The loan against the claimed guarantees, when its fee is known.
  unfoldable pub lend_unsecured : Account → Terms → ℕ → UserRecord → Claimed → ℤ → Step (Unit {0})
  lend_unsecured treasury t discounted user c fee = do
    let net = pos discounted -ℤ fee -ℤ pos (total_price c.states)
    guard (ltb_ℤ (pos 0) net)
    guard (leb_ℤ (pos discounted -ℤ fee) treasury.balance)
    guard (is_free (find_loan hash user.loans))
    pay_guarantors c.states
    lend tx.sender
        (record (put_loan hash (new_loan height t discounted true c.entries) user) {
          loaned = user.loaned +ℤ pos discounted;
        })
        (pos discounted -ℤ fee) net
    add_loaned discounted

  unfoldable pub borrow_unsecured : Account → Terms → List (Bytes × Bytes) → Step (Unit {0})
  borrow_unsecured treasury t references = do
    guard (are_distinct references)
    discounted ← discounted_amount t
    let user = user_or_new (treasury.users tx.sender)
    c ←
        claim_refs treasury.users height hash (t.interval * t.count) references
          (record { states = []; entries = []; covered = 0 })
    guard (leb discounted c.covered)
    guard (within_interest c.states)
    fee ← insurance_fee discounted user
    lend_unsecured treasury t discounted user c fee

  unfoldable pub borrow_against : Option (List (Bytes × Bytes)) → Account → Terms → Step (Unit {0})
  borrow_against none treasury t = fail
  borrow_against (some []) treasury t = fail
  borrow_against (some (first ∷ rest)) treasury t = borrow_unsecured treasury t (first ∷ rest)

  -- LoanType raises a ValueError for other numbers than these two.
  unfoldable pub borrow_as : ℤ → Option (List (Bytes × Bytes)) → Account → Terms → Step (Unit {0})
  borrow_as (pos zero) references treasury t = borrow_secured treasury t
  borrow_as (pos (suc zero)) references treasury t = borrow_against references treasury t
  borrow_as (pos (suc (suc n))) references treasury t = abort
  borrow_as (negsuc n) references treasury t = abort

  unfoldable pub handle_treasury_borrow : Option (List (Bytes × Bytes)) → Step (Unit {0})
  handle_treasury_borrow references =
      if for_payment tx
      then (do
        treasury ← get_account treasury_address
        request ← need (request_of tx)
        borrow_as request.0 references treasury request.1)
      else fail
