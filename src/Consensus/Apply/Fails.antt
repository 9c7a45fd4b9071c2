-- ===== src/Consensus/Apply/Fails.antt =====
-- The failures of a transaction in its fees and in its settlement.
use lib_py.Base.{
  ◌≡◌, refl, Bool, true, false, ◌&&◌, Option, none, some, List, if◌then◌else◌, Option-cases, inl,
  inr,
}
use lib_py.Base.Int.{ℤ, pos, ◌+ℤ◌}
use lib_py.Base.Bytes.{Bytes}
use lib_py.Consensus.Ledger.{Block, Transaction}
use lib_py.Consensus.Apply.{Work, Recipient, nobody, known, fresh, Context, balance_in, rollback}
use lib_py.Consensus.Apply.Finish.{settle, settled_work}
use lib_py.Consensus.Apply.Charges.{
  all_fees, build_receipt, charge_part, covers, charge_recipient, fees_before_receipt,
  charge_receipt, receipt_fee,
}
use lib_py.Consensus.Apply.Failure.{chosen}

-- A failure stays one through the fees.
charge_part-fails :
    (balance owed : ℤ) (part : Option ℤ) (s : Bool × ℤ)
    → s.0 ≡ false
    → (charge_part balance owed part s).0 ≡ false
unfolding charge_part
charge_part-fails balance owed none (ok, fee) h = refl
charge_part-fails balance owed (some part) (ok, fee) h = rw h refl

module _ (c : Context) (hash : Bytes) (tx : Transaction) (seen : List Bytes) where
  charge_recipient-fails :
      (r : Recipient) (s : Bool × ℤ) → s.0 ≡ false → (charge_recipient c r s).0 ≡ false
  unfolding charge_recipient
  charge_recipient-fails nobody s h = h
  charge_recipient-fails (known key) s h = h
  charge_recipient-fails (fresh a) (ok, fee) h = elim (Option-cases (c.account_size a)) [
    | inl e ↦ rw (charge_recipient, e) refl
    | inr (n, e) ↦ rw (charge_recipient, e) h
  ]

  charge_receipt-fails :
      (w : Work) (s : Bool × ℤ) → s.0 ≡ false → (charge_receipt c hash w s).0 ≡ false
  unfolding charge_receipt
  charge_receipt-fails w (ok, base) h =
      split
        (receipt_fee c 8 (build_receipt hash w ok (pos 1 +ℤ w.report.evaluation) (pos 0)) base base)
    where
      split :
          (o : Option ℤ)
          → ◌≡◌ {A = Bool}
              (let r : Bool × ℤ = elim o [ none ↦ (false, base) | some fee ↦ (ok, fee) ] in r.0)
              false
      split none = refl
      split (some fee) = h

  pub all_fees-fails :
      (w : Work) (balance : ℤ) → w.success ≡ false → (all_fees c hash tx seen w balance).0 ≡ false
  unfolding all_fees fees_before_receipt
  all_fees-fails w balance h = charge_receipt-fails w _ (
      charge_recipient-fails w.recipient _ (
        charge_part-fails balance _ _ _ (
          charge_part-fails balance _ _ _
            (charge_part-fails balance _ _ _ (charge_part-fails balance _ _ _ h)))))

  chosen-fails :
      (snapshot : Block) (w : Work) (ok : Bool) (fee : ℤ) (affordable : Bool)
      → ok ≡ false
      → (chosen tx snapshot w ok fee affordable).1 ≡ false
  chosen-fails snapshot w ok fee true h = h
  chosen-fails snapshot w ok fee false h = refl

  pub settled_work-fails :
      (snapshot : Block) (w : Work) (charged : Bool × ℤ)
      → charged.0 ≡ false
      → (settled_work snapshot tx w charged).1 ≡ false
  unfolding settled_work
  settled_work-fails snapshot w (ok, fee) h =
      let ok' : Bool =
        ok
        && covers (balance_in tx.sender w.block)
            (pos 1 +ℤ w.report.evaluation +ℤ w.amount +ℤ fee) in
      let w' : Work = if ok' then w else rollback snapshot w in
      chosen-fails snapshot w' ok' fee (settle tx w' fee).affordable (rw h refl)
