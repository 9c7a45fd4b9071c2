-- ===== src/Consensus/Fees/Settlement.antt =====
-- What a settlement takes from the sender: rules 2 to 5 of src/astreum/consensus/transaction/fees.py.
use lib_py.Base.{
  ◌≡◌, refl, sym, ◌⊎◌, inl, inr, true, false, Bool-cases, [], ◌∷◌, if◌then◌else◌, arith,
}
use lib_py.Base.Int.{ℤ, pos, ◌+ℤ◌, ◌≤ℤ◌, leb_ℤ, min_ℤ, max_ℤ, int_laws}
use lib_py.Consensus.Fees.{FeeSettlement, total, settle_fees, pay_in_order, partial}

-- The loop hands out the balance until it is spent.
total-pay_in_order :
    (r t d s : ℤ)
    → pos 0 ≤ℤ r
    → pos 0 ≤ℤ t
    → pos 0 ≤ℤ d
    → pos 0 ≤ℤ s
    → total (partial (pay_in_order r (t ∷ d ∷ s ∷ []))) ≡ min_ℤ r (t +ℤ d +ℤ s)
unfolding total partial pay_in_order
total-pay_in_order r t d s hr ht hd hs = grind int_laws

le_refl_ℤ : (a : ℤ) → a ≤ℤ a
le_refl_ℤ a = omega arith

max_ℤ_nonneg : (a : ℤ) → pos 0 ≤ℤ max_ℤ (pos 0) a
max_ℤ_nonneg a = ground arith

-- If no fee is negative, the total is all that is owed and the transfer if the balance covers both, and otherwise
-- min(balance, owed), where a negative balance counts as 0.
pub total-settle_fees :
    (balance t d s amount : ℤ)
    → pos 0 ≤ℤ t
    → pos 0 ≤ℤ d
    → pos 0 ≤ℤ s
    → total (settle_fees balance t d s amount) ≡ (
        if leb_ℤ (t +ℤ d +ℤ s +ℤ amount) balance
        then t +ℤ d +ℤ s +ℤ amount
        else min_ℤ (max_ℤ (pos 0) balance) (t +ℤ d +ℤ s))
unfolding settle_fees
total-settle_fees balance t d s amount ht hd hs =
    elim (Bool-cases (leb_ℤ (t +ℤ d +ℤ s +ℤ amount) balance)) [
      | inl covered ↦ rw covered (unfold total in refl)
      | inr short ↦
          rw short
            (total-pay_in_order (max_ℤ (pos 0) balance) t d s (max_ℤ_nonneg balance) ht hd hs)
    ]

-- A settlement never takes more than a balance of zero or more, nor a negative amount.
pub total-settle_fees_bounds :
    (balance t d s amount : ℤ)
    → pos 0 ≤ℤ t
    → pos 0 ≤ℤ d
    → pos 0 ≤ℤ s
    → pos 0 ≤ℤ amount
    → pos 0 ≤ℤ balance
    → (total (settle_fees balance t d s amount) ≤ℤ balance)
      × (pos 0 ≤ℤ total (settle_fees balance t d s amount))
total-settle_fees_bounds balance t d s amount ht hd hs ha hb =
    rw (total-settle_fees balance t d s amount ht hd hs) (grind int_laws)

-- `InOrder` for the loop, fee by fee.
module _ (r t d s : ℤ) (hr : pos 0 ≤ℤ r) (ht : pos 0 ≤ℤ t) (hd : pos 0 ≤ℤ d) (hs : pos 0 ≤ℤ s) where
  abbrev paid : FeeSettlement
  paid = partial (pay_in_order r (t ∷ d ∷ s ∷ []))

  paid_bounds :
      (paid.transaction_fee ≤ℤ t)
      × (paid.data_fee ≤ℤ d)
      × (paid.storage_fee ≤ℤ s)
      × (pos 0 ≤ℤ paid.transaction_fee)
      × (pos 0 ≤ℤ paid.data_fee)
      × (pos 0 ≤ℤ paid.storage_fee)
  unfolding partial pay_in_order
  paid_bounds = grind int_laws

  paid_data : (paid.data_fee ≡ pos 0) ⊎ (paid.transaction_fee ≡ t)
  unfolding partial pay_in_order
  paid_data = grind int_laws

  paid_storage : (paid.storage_fee ≡ pos 0) ⊎ (paid.transaction_fee ≡ t) × (paid.data_fee ≡ d)
  unfolding partial pay_in_order
  paid_storage = grind int_laws

  paid_nothing_more : (paid.affordable ≡ false) × (paid.transfer_amount ≡ pos 0)
  unfolding partial pay_in_order
  paid_nothing_more = (refl, refl)

-- If no fee is negative, the fees are paid in the order transaction, data, storage: each payment lies between 0 and what
-- is due, and a fee is paid only if each fee before it is paid in full. A settlement that is not
-- affordable moves no transfer amount, and one that is pays every fee in full and the transfer.
pub settle_fees_order :
    (balance t d s amount : ℤ)
    → pos 0 ≤ℤ t
    → pos 0 ≤ℤ d
    → pos 0 ≤ℤ s
    → let r = settle_fees balance t d s amount in
      ((r.transaction_fee ≤ℤ t)
        × (r.data_fee ≤ℤ d)
        × (r.storage_fee ≤ℤ s)
        × (pos 0 ≤ℤ r.transaction_fee)
        × (pos 0 ≤ℤ r.data_fee)
        × (pos 0 ≤ℤ r.storage_fee))
      × ((r.data_fee ≡ pos 0) ⊎ (r.transaction_fee ≡ t))
      × ((r.storage_fee ≡ pos 0) ⊎ (r.transaction_fee ≡ t) × (r.data_fee ≡ d))
      × ((r.affordable ≡ false) × (r.transfer_amount ≡ pos 0)
          ⊎ (r.affordable ≡ true)
            × (r.transaction_fee ≡ t)
            × (r.data_fee ≡ d)
            × (r.storage_fee ≡ s)
            × (r.transfer_amount ≡ amount))
unfolding settle_fees
settle_fees_order balance t d s amount ht hd hs =
    let m : ℤ = max_ℤ (pos 0) balance in
    let hm : pos 0 ≤ℤ m = max_ℤ_nonneg balance in
    elim (Bool-cases (leb_ℤ (t +ℤ d +ℤ s +ℤ amount) balance)) [
      | inl covered ↦ rw covered (
        (le_refl_ℤ t, le_refl_ℤ d, le_refl_ℤ s, ht, hd, hs),
        inr refl,
        inr (refl, refl),
        inr (refl, refl, refl, refl, refl),
      )
      | inr short ↦ rw short (
        paid_bounds m t d s hm ht hd hs,
        paid_data m t d s hm ht hd hs,
        paid_storage m t d s hm ht hd hs,
        inl (paid_nothing_more m t d s hm ht hd hs),
      )
    ]

-- The transfer moves if the settlement is affordable, and an amount of 0 in any case.
pub settle_fees-moves :
    (balance t d s amount : ℤ)
    → ((settle_fees balance t d s amount).affordable ≡ true) ⊎ (amount ≡ pos 0)
    → (settle_fees balance t d s amount).transfer_amount ≡ amount
unfolding settle_fees partial pay_in_order
settle_fees-moves balance t d s amount h =
    elim (Bool-cases (leb_ℤ (t +ℤ d +ℤ s +ℤ amount) balance)) [
      | inl covered ↦ rw covered refl
      | inr short ↦ moved h short
    ]
  where
    moved :
        ((settle_fees balance t d s amount).affordable ≡ true) ⊎ (amount ≡ pos 0)
        → leb_ℤ (t +ℤ d +ℤ s +ℤ amount) balance ≡ false
        → (settle_fees balance t d s amount).transfer_amount ≡ amount
    moved (inl a) short = cc (a, short)
    moved (inr z) short = rw short (sym z)
