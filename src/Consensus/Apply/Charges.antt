-- ===== src/Consensus/Apply/Charges.antt =====
-- The fees of `_apply_tx_effects` of src/astreum/consensus/transaction/apply.py in their order, with
-- receipt_at_fixed_point of storage/contract.py.
use lib_py.Base.{
  ℕ, zero, suc, ◌*◌, Bool, false, ◌||◌, ◌&&◌, Option, none, some, List, [], ◌∷◌, if◌then◌else◌,
}
use lib_py.Base.Int.{ℤ, pos, ◌+ℤ◌, leb_ℤ, eqb_ℤ, max_ℤ, min_ℤ}
use lib_py.Base.Bytes.{Bytes, bytes_eq}
use lib_py.Consensus.Ledger.{Transaction, storage_address, treasury_address}
use lib_py.Consensus.Apply.{storage_fee, Recipient, nobody, known, fresh, Work, Receipt, Context}

unfoldable pub is_in : Bytes → List Bytes → Bool
is_in key [] = false
is_in key (k ∷ rest) = let other = is_in key rest in bytes_eq k key || other

-- The fees that are known before the receipt, with the status after each check of the balance.
abbrev pub covers : ℤ → ℤ → Bool
covers balance owed = leb_ℤ owed balance

-- One more fee, and a check; a part that cannot be sized fails.
unfoldable pub charge_part : ℤ → ℤ → Option ℤ → Bool × ℤ → Bool × ℤ
charge_part balance owed none (ok, fee) = (false, fee)
charge_part balance owed (some part) (ok, fee) =
    (ok && covers balance (owed +ℤ (fee +ℤ part)), fee +ℤ part)

unfoldable pub build_receipt : Bytes → Work → Bool → ℤ → ℤ → ℤ → Receipt
build_receipt hash w ok transaction_fee data_fee fee = record {
  transaction_hash = hash;
  transaction_fee = transaction_fee;
  storage_fee = fee;
  data_fee = data_fee;
  execution_fee = min_ℤ w.report.evaluation transaction_fee;
  success = ok;
  mint = if ok then w.report.minted else pos 0;
}

module _ (c : Context) where
  -- The bloom elements of the accounts that were written, for those that are not named anyway.
  unfoldable pub involved_fee : Transaction → List Bytes → List Bytes → ℤ
  involved_fee tx seen [] = pos 0
  involved_fee tx seen (key ∷ rest) =
      let more = involved_fee tx seen rest in
      if bytes_eq key tx.sender
        || (bytes_eq key tx.recipient
            || (bytes_eq key storage_address || bytes_eq key treasury_address))
      then more
      else storage_fee c.previous (2 * (if is_in key seen then 1 else 2)) +ℤ more

  abbrev sized : Option ℕ → Option ℤ
  sized none = none
  sized (some n) = some (storage_fee c.previous n)

  -- The fee of a new account, which no check of the balance follows.
  unfoldable pub charge_recipient : Recipient → Bool × ℤ → Bool × ℤ
  charge_recipient nobody s = s
  charge_recipient (known key) s = s
  charge_recipient (fresh a) (ok, fee) = elim (sized (c.account_size a)) [
    | none ↦ (false, fee)
    | some part ↦ (ok, fee +ℤ part)
  ]

  unfoldable pub fees_before_receipt : Transaction → List Bytes → Work → ℤ → Bool × ℤ
  fees_before_receipt tx seen w balance =
      let owed = pos 1 +ℤ w.report.evaluation +ℤ w.amount in
      let involved : ℤ = if w.success then involved_fee tx seen w.block.involved else pos 0 in
      let first =
        charge_part balance owed (some (storage_fee c.previous 14 +ℤ involved))
          (w.success, pos 0) in
      let blooms : ℤ =
        if first.0 then storage_fee c.previous (8 * w.report.bloom_keys) else pos 0 in
      let second = charge_part balance owed (some blooms) first in
      let third = charge_part balance owed (sized c.transaction_size) second in
      charge_recipient w.recipient (charge_part balance owed w.report.logs_fee third)

  -- `receipt_at_fixed_point`: the storage fee with the fee of the receipt itself.
  unfoldable pub receipt_fee : ℕ → (ℤ → Receipt) → ℤ → ℤ → Option ℤ
  receipt_fee zero build base fee = some fee
  receipt_fee (suc rounds) build base fee = elim (sized (c.receipt_size (build fee))) [
    | none ↦ none
    | some own ↦
        if eqb_ℤ (base +ℤ own) fee
        then some fee
        else receipt_fee rounds build base (max_ℤ fee (base +ℤ own))
  ]

  unfoldable pub charge_receipt : Bytes → Work → Bool × ℤ → Bool × ℤ
  charge_receipt hash w (ok, base) =
      elim (receipt_fee 8 (build_receipt hash w ok (pos 1 +ℤ w.report.evaluation) (pos 0)) base
        base) [ none ↦ (false, base) | some fee ↦ (ok, fee) ]

  unfoldable pub all_fees : Bytes → Transaction → List Bytes → Work → ℤ → Bool × ℤ
  all_fees hash tx seen w balance = charge_receipt hash w (fees_before_receipt tx seen w balance)
