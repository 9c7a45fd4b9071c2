-- ===== src/Consensus/Fees/Tests.antt =====
-- Runs of `settle_fees`, and its theorems at concrete inputs.
use lib_py.Base.{◌≡◌, ◌⊎◌, refl, true, false, arith}
use lib_py.Base.Int.{pos, negsuc, ◌+ℤ◌, ◌-ℤ◌, ◌≤ℤ◌}
use lib_py.Consensus.Fees.{FeeSettlement, total, settle_fees, pay_in_order, partial}
use lib_py.Consensus.Fees.Settlement.{settle_fees_order}

-- A balance of 7 against fees of 5, 4 and 3 pays 5, 2 and 0.
abbrev short_settlement : FeeSettlement
short_settlement = record {
  transaction_fee = pos 5;
  data_fee = pos 2;
  storage_fee = pos 0;
  transfer_amount = pos 0;
  affordable = false;
}

settle_short : settle_fees (pos 7) (pos 5) (pos 4) (pos 3) (pos 100) ≡ short_settlement
unfolding settle_fees pay_in_order partial ◌+ℤ◌ ◌-ℤ◌
settle_short = refl

settle_negative : total (settle_fees (negsuc 2) (pos 5) (pos 4) (pos 3) (pos 0)) ≡ pos 0
unfolding settle_fees pay_in_order partial total ◌+ℤ◌ ◌-ℤ◌
settle_negative = refl

settle_fees_order_example :
    let r = settle_fees (pos 7) (pos 5) (pos 4) (pos 3) (pos 100) in
    ((r.transaction_fee ≤ℤ pos 5)
      × (r.data_fee ≤ℤ pos 4)
      × (r.storage_fee ≤ℤ pos 3)
      × (pos 0 ≤ℤ r.transaction_fee)
      × (pos 0 ≤ℤ r.data_fee)
      × (pos 0 ≤ℤ r.storage_fee))
    × ((r.data_fee ≡ pos 0) ⊎ (r.transaction_fee ≡ pos 5))
    × ((r.storage_fee ≡ pos 0) ⊎ (r.transaction_fee ≡ pos 5) × (r.data_fee ≡ pos 4))
    × ((r.affordable ≡ false) × (r.transfer_amount ≡ pos 0)
        ⊎ (r.affordable ≡ true)
          × (r.transaction_fee ≡ pos 5)
          × (r.data_fee ≡ pos 4)
          × (r.storage_fee ≡ pos 3)
          × (r.transfer_amount ≡ pos 100))
settle_fees_order_example =
    settle_fees_order (pos 7) (pos 5) (pos 4) (pos 3) (pos 100) (omega arith) (omega arith)
      (omega arith)
