-- ===== src/Consensus/Loan/Payment.antt =====
-- What `_apply_treasury_loan_payment` makes of a payment of whole installments.
use native.Mathlib.Nat.{mul-div_right, mul-lt-mul_of_pos_left, mod-eq-sub-mul-div}
use lib_py.Base.{
  ℕ, zero, suc, ◌+◌, ◌-◌, ◌*◌, ◌/◌, ◌%◌, ◌≤◌, ◌<◌, ◌≡◌, refl, ap, ◌∙◌, none, some, ◌==◌,
  if◌then◌else◌, ltb, leb, true, false, arith, ◌||◌,
}
use lib_py.Base.Int.{pos, ◌-ℤ◌}
use lib_py.Consensus.Loan.{
  TreasuryLoanRecord, paid_at, paid_payment_count, interest_paid_delta, advance, settle_payment,
  apply_loan_payment,
}
use lib_py.Consensus.Loan.Schedule.{due, due_lt, advance-due, advance_pays_off, advance_refuses}

times_div : (i n : ℕ) → 0 < i → i * n / i ≡ n
times_div i n h = mul-div_right n h

times_mod : (i n : ℕ) → 0 < i → i * n % i ≡ 0
times_mod i n h = omega (arith, mod-eq-sub-mul-div (i * n) i, ap (λ x. i * x) (times_div i n h))

-- The loan with p payments made.
abbrev pub after : TreasuryLoanRecord → ℕ → TreasuryLoanRecord
after loan p = record loan { next_payment_block_number = due loan (suc p) }

abbrev pub total_interest : TreasuryLoanRecord → ℕ
total_interest loan = loan.payment_amount * loan.payment_count - loan.discounted_amount

-- The interest that the first p payments have paid.
abbrev pub interest_at : TreasuryLoanRecord → ℕ → ℕ
interest_at loan p = total_interest loan * p / loan.payment_count

paid_at-due :
    (loan : TreasuryLoanRecord) (p : ℕ)
    → 0 < loan.payment_interval_blocks
    → paid_at loan (due loan (suc p)) ≡ p
unfolding paid_at
paid_at-due loan p h =
    let span : due loan (suc p) - loan.creation_block_number
        ≡ loan.payment_interval_blocks * suc p =
      omega arith in
    rw (span, times_div loan.payment_interval_blocks (suc p) h) (omega arith)

paid_payment_count-after :
    (loan : TreasuryLoanRecord) (p : ℕ)
    → 0 < loan.payment_interval_blocks
    → paid_payment_count (after loan p) ≡ some p
unfolding paid_payment_count
paid_payment_count-after loan p h =
    let span : due loan (suc p) - loan.creation_block_number
        ≡ loan.payment_interval_blocks * suc p =
      omega arith in
    let later : loan.creation_block_number < due loan (suc p) =
      omega (arith, due_lt loan p (suc p) h (omega arith)) in
    let whole : (due loan (suc p) - loan.creation_block_number) % loan.payment_interval_blocks ≡ 0 =
      rw span (times_mod loan.payment_interval_blocks (suc p) h) in
    grind (arith, paid_at-due (after loan p) p h)

settle_payment-next :
    (loan : TreasuryLoanRecord) (p q next paid : ℕ)
    → (if next == 0 then loan.payment_count else paid_at loan next) ≡ q
    → q ≤ loan.payment_count
    → loan.discounted_amount ≤ loan.payment_amount * loan.payment_count
    → settle_payment loan p next
      ≡ some (
        record loan { next_payment_block_number = next },
        pos (interest_at loan q) -ℤ pos (interest_at loan p),
      )
unfolding settle_payment interest_paid_delta
settle_payment-next loan p q next paid e fits profit =
    let few : ltb loan.payment_count q ≡ false = ground arith in
    let enough : ltb (loan.payment_amount * loan.payment_count) loan.discounted_amount ≡ false =
      ground arith in
    rw (e, few, enough) refl

-- The parts of a payment of k installments of a loan with p payments made.
apply-settle :
    (loan : TreasuryLoanRecord) (p k : ℕ)
    → 0 < loan.payment_interval_blocks
    → 0 < loan.payment_amount
    → p < loan.payment_count
    → 0 < k
    → apply_loan_payment (after loan p) (loan.payment_amount * k)
      ≡ elim (advance (after loan p) k (due loan (suc p))) [
        | none ↦ none
        | some next ↦ settle_payment (after loan p) p next
      ]
unfolding apply_loan_payment
apply-settle loan p k h price started some_paid =
    let cost : loan.payment_amount * 0 < loan.payment_amount * k =
      mul-lt-mul_of_pos_left some_paid price in
    let height : 0 < due loan (suc p) = omega (arith, due_lt loan p (suc p) h (omega arith)) in
    let guard : (loan.payment_amount * k == 0
          || (loan.payment_amount == 0 || due loan (suc p) == 0))
        ≡ false =
      grind arith in
    let whole : (loan.payment_amount * k % loan.payment_amount == 0) ≡ true =
      rw (times_mod loan.payment_amount k price) refl in
    let left : leb loan.payment_count p ≡ false = ground arith in
    rw
      (guard, whole, paid_payment_count-after loan p h, left, times_div loan.payment_amount k price)
      refl

-- For a loan whose interval and payment amount are positive and whose payments sum up to at least the
-- discounted amount: a payment of k installments, one or more, of the loan with p payments made, which
-- stays below the payment count, makes it a loan with p + k payments made, and pays the interest
-- between the two.
pub apply_loan_payment_middle :
    (loan : TreasuryLoanRecord) (p k : ℕ)
    → 0 < loan.payment_interval_blocks
    → 0 < loan.payment_amount
    → loan.discounted_amount ≤ loan.payment_amount * loan.payment_count
    → 0 < k
    → p + k < loan.payment_count
    → apply_loan_payment (after loan p) (loan.payment_amount * k)
      ≡ some (after loan (p + k), pos (interest_at loan (p + k)) -ℤ pos (interest_at loan p))
apply_loan_payment_middle loan p k h price profit some_paid fits =
    let height : 0 < due loan (suc (p + k)) =
      omega (arith, due_lt loan (p + k) (suc (p + k)) h (omega arith)) in
    let count : (if due loan (suc (p + k)) == 0
          then loan.payment_count
          else paid_at (after loan p) (due loan (suc (p + k))))
        ≡ p + k =
      grind (arith, paid_at-due (after loan p) (p + k) h) in
    apply-settle loan p k h price (omega arith) some_paid
    ∙ rw (advance-due (after loan p) k p h fits) (
        settle_payment-next (after loan p) p (p + k) (due loan (suc (p + k))) p count (omega arith)
          profit)

-- For a loan whose interval and payment amount are positive and whose payments sum up to at least the
-- discounted amount: a payment of all the installments, one or more, that the loan with p payments made
-- has left pays it off: the next due height is 0, and the interest of all payments after the first p is
-- paid.
pub apply_loan_payment_last :
    (loan : TreasuryLoanRecord) (p k : ℕ)
    → 0 < loan.payment_interval_blocks
    → 0 < loan.payment_amount
    → loan.discounted_amount ≤ loan.payment_amount * loan.payment_count
    → 0 < k
    → p + k ≡ loan.payment_count
    → apply_loan_payment (after loan p) (loan.payment_amount * k)
      ≡ some (
        record loan { next_payment_block_number = 0 },
        pos (interest_at loan loan.payment_count) -ℤ pos (interest_at loan p),
      )
apply_loan_payment_last loan p zero h price profit some_paid all = absurd (omega arith)
apply_loan_payment_last loan p (suc k) h price profit some_paid all =
    apply-settle loan p (suc k) h price (omega arith) some_paid
    ∙ rw (advance_pays_off (after loan p) k p h all)
        (settle_payment-next (after loan p) p loan.payment_count 0 p refl (omega arith) profit)

-- For a loan whose interval and payment amount are positive, with p payments made and some left: a
-- payment of more installments than are left is refused.
pub apply_loan_payment_over :
    (loan : TreasuryLoanRecord) (p k : ℕ)
    → 0 < loan.payment_interval_blocks
    → 0 < loan.payment_amount
    → p < loan.payment_count
    → loan.payment_count < p + k
    → apply_loan_payment (after loan p) (loan.payment_amount * k) ≡ none
apply_loan_payment_over loan p k h price started more =
    apply-settle loan p k h price started (omega arith)
    ∙ rw (advance_refuses (after loan p) k p h started more) refl
