-- ===== src/Consensus/Fees.antt =====
-- The fee settlement of a top-level transaction: src/astreum/consensus/transaction/fees.py.
-- Python's ints are unbounded and signed, so every amount is an integer.
pub mod Settlement
mod Tests
use lib_py.Base.{List, [], ◌∷◌, Bool, true, false, if◌then◌else◌}
use lib_py.Base.Int.{ℤ, pos, ◌+ℤ◌, ◌-ℤ◌, leb_ℤ, min_ℤ, max_ℤ}

pub record FeeSettlement : Type 0 where
  pub transaction_fee : ℤ
  pub data_fee : ℤ
  pub storage_fee : ℤ
  pub transfer_amount : ℤ
  pub affordable : Bool

-- The property `total`.
unfoldable pub total : FeeSettlement → ℤ
total s = s.transaction_fee +ℤ s.data_fee +ℤ s.storage_fee +ℤ s.transfer_amount

-- The loop of `settle_fees` over the fees that are due, in order.
unfoldable pub pay_in_order : ℤ → List ℤ → List ℤ
pay_in_order remaining [] = []
pay_in_order remaining (due ∷ rest) =
    let part = min_ℤ remaining due in part ∷ pay_in_order (remaining -ℤ part) rest

-- `FeeSettlement(paid[0], paid[1], paid[2], 0, False)`. The loop gives three parts, so the
-- other clause is not reached.
unfoldable pub partial : List ℤ → FeeSettlement
partial (t ∷ d ∷ s ∷ []) = record {
  transaction_fee = t;
  data_fee = d;
  storage_fee = s;
  transfer_amount = pos 0;
  affordable = false;
}
partial _ = record {
  transaction_fee = pos 0;
  data_fee = pos 0;
  storage_fee = pos 0;
  transfer_amount = pos 0;
  affordable = false;
}

unfoldable pub settle_fees : ℤ → ℤ → ℤ → ℤ → ℤ → FeeSettlement
settle_fees balance transaction_fee data_fee storage_fee transfer_amount =
    let owed = transaction_fee +ℤ data_fee +ℤ storage_fee in
    if leb_ℤ (owed +ℤ transfer_amount) balance
    then record {
      transaction_fee = transaction_fee;
      data_fee = data_fee;
      storage_fee = storage_fee;
      transfer_amount = transfer_amount;
      affordable = true;
    }
    else partial
        (pay_in_order (max_ℤ (pos 0) balance) (transaction_fee ∷ data_fee ∷ storage_fee ∷ []))
