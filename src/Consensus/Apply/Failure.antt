-- ===== src/Consensus/Apply/Failure.antt =====
-- Transactions that fail: what they change.
use lib_py.Base.{
  ◌≡◌, refl, ap, subst, ◌∙◌, Bool, true, false, ◌&&◌, ◌||◌, Option, none, some, List, [],
  if◌then◌else◌, Bool-cases, inl, inr,
}
use lib_py.Base.Int.{ℤ, pos, leb_ℤ, eqb_ℤ}
use lib_py.Base.Bytes.{Bytes}
use lib_py.Consensus.Codes.{TransactionCode}
use lib_py.Consensus.Fees.{FeeSettlement}
use lib_py.Consensus.Ledger.{Account, find, Block, Transaction, storage_address}
use lib_py.Consensus.Apply.{
  Work, nobody, Context, Receipt, Applied, raised, no_answer, applied, rollback, rate_valid,
}
use lib_py.Consensus.Apply.Finish.{
  settle, settled_work, finish, apply_guarded, apply_tx_effects, deduct, bump_counter,
  write_recipient,
}
use lib_py.Consensus.Apply.Codes.{credit_funding}
use lib_py.Consensus.Apply.Charges.{build_receipt}
use lib_py.Consensus.Apply.Apart.{Apart, refl-Apart, trans-Apart, credit-Apart, bump_counter-Apart}

-- Work that has been taken back.
pub record Restored (snapshot : Block) (w : Work) : Type 0 where
  pub block_same : w.block ≡ snapshot
  pub nobody_paid : w.recipient ≡ nobody

module _ (tx : Transaction) where
  abbrev Beside : Block → Block → Type 0
  Beside = Apart tx.sender storage_address

  counted-Apart :
      (matched : Bool) (b : Block) → Beside b (if matched then bump_counter tx.sender b else b)
  counted-Apart true b = bump_counter-Apart tx.sender storage_address tx.sender b (λ k f g. f)
  counted-Apart false b = refl-Apart tx.sender storage_address b

  deduct-Apart :
      (snapshot : Block) (matched : Bool) (w : Work) (s : FeeSettlement)
      → Restored snapshot w
      → Beside snapshot (deduct tx matched w s)
  unfolding deduct write_recipient
  deduct-Apart snapshot matched w s h =
      rw (h.block_same, h.nobody_paid)
        (trans-Apart _ _
          (trans-Apart _ _ (credit-Apart _ _ tx.sender _ snapshot (λ k f g. f))
            (credit-Apart _ _ storage_address _ _ (λ k f g. g)))
          (counted-Apart matched _))

  rollback-Restored : (snapshot : Block) (w : Work) → Restored snapshot (rollback snapshot w)
  unfolding rollback
  rollback-Restored snapshot w = record { block_same = refl; nobody_paid = refl }

  -- The last choice of the settlement.
  abbrev pub chosen : Block → Work → Bool → ℤ → Bool → Work × Bool × FeeSettlement
  chosen snapshot w ok fee affordable =
      if affordable
      then (w, ok, settle tx w fee)
      else (rollback snapshot w, false, settle tx (rollback snapshot w) fee)

  pub chosen-Restored :
      (snapshot : Block) (w : Work) (ok : Bool) (fee : ℤ) (affordable : Bool)
      → (ok ≡ false → Restored snapshot w)
      → (chosen snapshot w ok fee affordable).1 ≡ false
      → Restored snapshot (chosen snapshot w ok fee affordable).0
  chosen-Restored snapshot w ok fee true h e = h e
  chosen-Restored snapshot w ok fee false h e = rollback-Restored snapshot w

  kept-Restored :
      (snapshot : Block) (ok : Bool) (w : Work)
      → ok ≡ false
      → Restored snapshot (if ok then w else rollback snapshot w)
  kept-Restored snapshot true w e = cc
  kept-Restored snapshot false w e = rollback-Restored snapshot w

  pub settled_work-Restored :
      (snapshot : Block) (w : Work) (charged : Bool × ℤ)
      → (settled_work snapshot tx w charged).1 ≡ false
      → Restored snapshot (settled_work snapshot tx w charged).0
  unfolding settled_work
  settled_work-Restored snapshot w (ok, fee) e =
      chosen-Restored snapshot _ _ fee _ (kept-Restored snapshot _ w) e

  -- What is applied without success.
  abbrev Fails : Block → Applied → Type 0
  Fails snapshot raised = Unit
  Fails snapshot no_answer = Unit
  Fails snapshot (applied after r seen) = r.success ≡ false → Beside snapshot after

  ended-Fails :
      (snapshot : Block) (hash : Bytes) (matched : Bool) (seen : List Bytes)
      (r : Work × Bool × FeeSettlement) (o : Option Account)
      → (r.1 ≡ false → Restored snapshot r.0)
      → Fails snapshot (elim o [
        | none ↦ raised
        | some a ↦
            applied
              (deduct tx matched r.0 r.2)
              (build_receipt hash r.0 r.1 r.2.transaction_fee r.2.data_fee r.2.storage_fee)
              seen
      ])
  unfolding build_receipt
  ended-Fails snapshot hash matched seen r none h = tt
  ended-Fails snapshot hash matched seen r (some a) h =
      λ e. deduct-Apart snapshot matched r.0 r.2 (h e)

  finish-Fails :
      (c : Context) (snapshot : Block) (hash : Bytes) (matched : Bool) (seen : List Bytes)
      (w : Work)
      → Fails snapshot (finish c snapshot hash tx matched seen w)
  unfolding finish
  finish-Fails c snapshot hash matched seen w =
      ended-Fails snapshot hash matched _ _ _ (settled_work-Restored snapshot _ _)

  apply_guarded-Fails :
      (c : Context) (code : TransactionCode) (hash : Bytes) (seen : List Bytes) (sender : Account)
      (snapshot : Block)
      → Fails snapshot (apply_guarded c code hash tx seen sender snapshot)
  unfolding apply_guarded
  apply_guarded-Fails c code hash seen sender snapshot = after _
    where
      after :
          (o : Option Work)
          → Fails snapshot (elim o [
            | none ↦ no_answer
            | some w ↦ finish c snapshot hash tx (eqb_ℤ tx.counter sender.counter) seen w
          ])
      after none = tt
      after (some w) = finish-Fails c snapshot hash _ seen w

abbrev pub success_of : Applied → Bool
success_of raised = false
success_of no_answer = false
success_of (applied b r seen) = r.success

abbrev pub block_of : Block → Applied → Block
block_of d raised = d
block_of d no_answer = d
block_of d (applied b r seen) = b

of_cleared :
    (a b : Bytes) (before after : Block)
    → Apart a b (record before { involved = [] }) after
    → Apart a b before after
of_cleared a b before after h = record {
  others = h.others;
  loaned = h.loaned;
  defaulted = h.defaulted;
  loan_count = h.loan_count;
  votes = h.votes;
  claims = h.claims;
}

-- A transaction whose receipt is not a success changes no account but the sender's and the storage
-- account, and none of the loan, default and claim counters of the block: this holds for every code
-- and whatever its handler wrote, also where the failure is found after the handler has run.
pub apply_tx_effects-Apart :
    (c : Context) (code : TransactionCode) (hash : Bytes) (tx : Transaction) (seen : List Bytes)
    (block after : Block) (r : Receipt) (seen' : List Bytes)
    → apply_tx_effects c code hash tx seen block ≡ applied after r seen'
    → r.success ≡ false
    → Apart tx.sender storage_address block after
unfolding apply_tx_effects
apply_tx_effects-Apart c code hash tx seen block after r seen' e failed_receipt =
    failing _ e (elim (Bool-cases (eqb_ℤ tx.chain_id c.chain_id && rate_valid c.previous)) [
      | inl valid ↦ rw (apply_tx_effects, valid) (sent (find tx.sender block.accounts))
      | inr invalid ↦ rw (apply_tx_effects, invalid) tt
    ])
  where
    failing :
        (o : Applied)
        → o ≡ applied after r seen'
        → Fails tx (record block { involved = [] }) o
        → Apart tx.sender storage_address block after
    failing raised f g = cc
    failing no_answer f g = cc
    failing (applied b x y) f g = of_cleared tx.sender storage_address block after (
        subst (λ n. Apart tx.sender storage_address (record block { involved = [] }) n)
          (ap (block_of block) f) (g (ap success_of f ∙ failed_receipt)))

    sent :
        (o : Option Account)
        → Fails tx
            (record block { involved = [] })
            (elim o [
              | none ↦ raised
              | some sender ↦
                  if credit_funding code || leb_ℤ (pos 1) sender.balance
                  then apply_guarded c code hash tx seen sender (record block { involved = [] })
                  else raised
            ])
    sent none = tt
    sent (some sender) = elim (Bool-cases (credit_funding code || leb_ℤ (pos 1) sender.balance)) [
      | inl covered ↦ rw covered (apply_guarded-Fails tx c code hash seen sender _)
      | inr short ↦ rw short tt
    ]
