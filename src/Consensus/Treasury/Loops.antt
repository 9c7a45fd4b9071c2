-- ===== src/Consensus/Treasury/Loops.antt =====
-- The loops over overdue payments end.
use lib_py.Base.{
  ℕ, zero, suc, ◌+◌, ◌≤◌, ◌<◌, ◌≡◌, refl, ◌⊎◌, inl, inr, ◌||◌, some, if◌then◌else◌, ltb, leb, ◌==◌,
  Bool-cases, arith,
}
use lib_py.Consensus.Loan.{TreasuryLoanRecord, final_payment}
use lib_py.Consensus.Treasury.{write_off, catch_up}

-- Where the loop of the write-offs stops: at no further payment, or at one that is not overdue.
abbrev pub Stops : ℕ → ℕ → Type 0
Stops height at = (at ≡ 0) ⊎ (height ≤ at)

write_off_from :
    (loan : TreasuryLoanRecord) (height fuel missed at : ℕ)
    → 0 < loan.payment_interval_blocks
    → (at ≡ 0) ⊎ (height < at + fuel)
    → 0 < fuel
    → (m : ℕ) × (next : ℕ) × (write_off loan height fuel missed at ≡ some (m, next))
      × Stops height next
      × (missed ≤ m)
unfolding write_off
write_off_from loan height zero missed at step h more = absurd (omega arith)
write_off_from loan height (suc fuel) missed at step h more =
    elim (Bool-cases (at == 0 || leb height at)) [
      | inl stop ↦ (missed, at, rw stop refl, ground arith, omega arith)
      | inr go ↦
          let later : ℕ =
            if at == final_payment loan then 0 else at + loan.payment_interval_blocks in
          let (m, n, e, s, l) =
            write_off_from loan height fuel (suc missed) later step (ground arith) (ground arith) in
          (m, n, rw go e, s, omega arith)
    ]

catch_up_from :
    (loan : TreasuryLoanRecord) (height fuel amount at : ℕ)
    → 0 < loan.payment_interval_blocks
    → (at ≡ 0) ⊎ (suc height < at + fuel)
    → 0 < fuel
    → (total : ℕ) × (next : ℕ) × (catch_up loan height fuel amount at ≡ some (total, next))
      × ((next ≡ 0) ⊎ (height < next))
unfolding catch_up
catch_up_from loan height zero amount at step h more = absurd (omega arith)
catch_up_from loan height (suc fuel) amount at step h more =
    elim (Bool-cases (at == 0 || ltb height at)) [
      | inl stop ↦ (amount, at, rw stop refl, ground arith)
      | inr go ↦ elim (Bool-cases (ltb (final_payment loan) (at + loan.payment_interval_blocks))) [
        | inl last ↦ (amount + loan.payment_amount, 0, rw (go, last) refl, inl refl)
        | inr further ↦
            let (t, n, e, s) =
              catch_up_from loan height fuel (amount + loan.payment_amount)
                (at + loan.payment_interval_blocks) step (inr (ground arith)) (ground arith) in
            (t, n, rw (go, further) e, s)
      ]
    ]

-- The loops over overdue payments end, with as much fuel as the handlers give them, if the interval
-- of the loan is positive: the one that writes off at a payment that is not overdue or at none, the
-- one that adds up what is due at a payment that is not yet due or at none.
pub overdue_total :
    (loan : TreasuryLoanRecord) (height at : ℕ)
    → 0 < loan.payment_interval_blocks
    → ((m : ℕ) × (next : ℕ) × (write_off loan height (suc height) 0 at ≡ some (m, next))
        × ((next ≡ 0) ⊎ (height ≤ next)))
      × ((t : ℕ) × (next : ℕ) × (catch_up loan height (suc height) 0 at ≡ some (t, next))
          × ((next ≡ 0) ⊎ (height < next)))
overdue_total loan height at step =
    let (m, n, e, s, l) =
      write_off_from loan height (suc height) 0 at step (inr (omega arith)) (omega arith) in
    ((m, n, e, s), catch_up_from loan height (suc height) 0 at step (started at) (omega arith))
  where
    started : (at : ℕ) → (at ≡ 0) ⊎ (suc height < at + suc height)
    started zero = inl refl
    started (suc at) = inr (omega arith)
