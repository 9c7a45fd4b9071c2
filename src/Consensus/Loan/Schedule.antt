-- ===== src/Consensus/Loan/Schedule.antt =====
-- The payments of a loan follow its schedule.
use lib_py.Base.{ℕ, zero, suc, ◌+◌, ◌*◌, ◌≤◌, ◌<◌, ◌≡◌, sym, ap, ◌∙◌, none, some, arith}
use native.Mathlib.Decide.{dec_lt}
use lib_py.Consensus.Loan.{TreasuryLoanRecord, final_payment, advance}

-- The height of payment number p, counted from 1.
abbrev pub due : TreasuryLoanRecord → ℕ → ℕ
due loan p = loan.creation_block_number + loan.payment_interval_blocks * p

times_suc : (i p : ℕ) → i * suc p ≡ i * p + i
times_suc i p = grind arith

due-suc :
    (loan : TreasuryLoanRecord) (p : ℕ)
    → due loan (suc p) ≡ due loan p + loan.payment_interval_blocks
due-suc loan p = omega (arith, times_suc loan.payment_interval_blocks p)

pub due_lt :
    (loan : TreasuryLoanRecord) (p q : ℕ)
    → 0 < loan.payment_interval_blocks
    → p < q
    → due loan p < due loan q
due_lt loan p zero h lt = absurd (omega arith)
due_lt loan p (suc q) h lt = elim (dec_lt p q) [
  | yes before ↦ omega (arith, due_lt loan p q h before, due-suc loan q)
  | no same ↦ let e : p ≡ q = omega arith in omega (arith, ap (due loan) e, due-suc loan q)
]

due_le :
    (loan : TreasuryLoanRecord) (p q : ℕ)
    → 0 < loan.payment_interval_blocks
    → p ≤ q
    → due loan p ≤ due loan q
due_le loan p q h le = elim (dec_lt p q) [
  | yes before ↦ omega (arith, due_lt loan p q h before)
  | no same ↦ let e : p ≡ q = omega arith in omega (arith, ap (due loan) e)
]

-- One round in the middle of the schedule goes on from the next due height.
advance_step :
    (loan : TreasuryLoanRecord) (k p : ℕ)
    → 0 < loan.payment_interval_blocks
    → suc p < loan.payment_count
    → advance loan (suc k) (due loan (suc p)) ≡ advance loan k (due loan (suc (suc p)))
unfolding advance final_payment
advance_step loan k p h fits =
    let next : due loan (suc (suc p)) ≡ due loan (suc p) + loan.payment_interval_blocks =
      due-suc loan (suc p) in
    let some_height : 0 < due loan (suc p) = omega (arith, due_lt loan p (suc p) h (omega arith)) in
    let before : due loan (suc p) < due loan loan.payment_count = due_lt loan (suc p) _ h fits in
    let room : due loan (suc (suc p)) ≤ due loan loan.payment_count = due_le loan _ _ h fits in
    rw (sym next) (grind arith)

-- The last payment sets the number to 0.
advance_last :
    (loan : TreasuryLoanRecord) (p : ℕ)
    → 0 < loan.payment_interval_blocks
    → suc p ≡ loan.payment_count
    → advance loan 1 (due loan (suc p)) ≡ some 0
unfolding advance final_payment
advance_last loan p h e =
    let some_height : 0 < due loan (suc p) = omega (arith, due_lt loan p (suc p) h (omega arith)) in
    let last : due loan (suc p) ≡ due loan loan.payment_count = ap (due loan) e in grind arith

-- A loan with p payments made comes, by k further payments that stay below the payment count, to the
-- due height after them.
pub advance-due :
    (loan : TreasuryLoanRecord) (k p : ℕ)
    → 0 < loan.payment_interval_blocks
    → p + k < loan.payment_count
    → advance loan k (due loan (suc p)) ≡ some (due loan (suc (p + k)))
unfolding advance
advance-due loan zero p h fits =
    let e : p ≡ p + 0 = omega arith in ap (λ n. some (due loan (suc n))) e
advance-due loan (suc k) p h fits =
    let e : suc p + k ≡ p + suc k = omega arith in
    advance_step loan k p h (omega arith)
    ∙ advance-due loan k (suc p) h (omega arith)
    ∙ ap (λ n. some (due loan (suc n))) e

-- A loan with p payments made is paid off, with 0 for the next due height, by as many payments as are
-- left.
pub advance_pays_off :
    (loan : TreasuryLoanRecord) (k p : ℕ)
    → 0 < loan.payment_interval_blocks
    → p + suc k ≡ loan.payment_count
    → advance loan (suc k) (due loan (suc p)) ≡ some 0
advance_pays_off loan zero p h all = advance_last loan p h (omega arith)
advance_pays_off loan (suc k) p h all =
    advance_step loan (suc k) p h (omega arith) ∙ advance_pays_off loan k (suc p) h (omega arith)

after_end : (loan : TreasuryLoanRecord) (k : ℕ) → 0 < k → advance loan k 0 ≡ none
unfolding advance
after_end loan zero h = absurd (omega arith)
after_end loan (suc k) h = grind arith

-- A payment of more installments than are left is refused.
pub advance_refuses :
    (loan : TreasuryLoanRecord) (k p : ℕ)
    → 0 < loan.payment_interval_blocks
    → p < loan.payment_count
    → loan.payment_count < p + k
    → advance loan k (due loan (suc p)) ≡ none
unfolding advance final_payment
advance_refuses loan zero p h started more = absurd (omega arith)
advance_refuses loan (suc k) p h started more = elim (dec_lt (suc p) loan.payment_count) [
  | yes middle ↦
      advance_step loan k p h middle ∙ advance_refuses loan k (suc p) h middle (omega arith)
  | no last ↦
      let e : suc p ≡ loan.payment_count = omega arith in
      let same : due loan (suc p) ≡ due loan loan.payment_count = ap (due loan) e in
      let some_height : 0 < due loan (suc p) =
        omega (arith, due_lt loan p (suc p) h (omega arith)) in
      let left : 0 < k = omega arith in grind arith
]
