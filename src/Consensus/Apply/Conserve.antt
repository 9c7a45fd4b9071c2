-- ===== src/Consensus/Apply/Conserve.antt =====
-- The sum of the balances, and the counters, over a whole transaction.
use lib_py.Base.{
  ◌≡◌, refl, ap, subst, Bool, true, false, ◌&&◌, ◌||◌, Option, none, some, List, [], if◌then◌else◌,
  Bool-cases, inl, inr,
}
use lib_py.Base.Int.{ℤ, pos, ◌+ℤ◌, leb_ℤ, eqb_ℤ}
use lib_py.Base.Bytes.{Bytes, bytes_eq}
use lib_py.Consensus.Codes.{
  TransactionCode, transfer, channel_update, channel_withdraw, channel_close, treasury_deposit,
  treasury_borrow, treasury_repay, treasury_close, treasury_guarantee, treasury_buy, treasury_claim,
  storage_create, storage_payment, storage_remove, code_account_create, code_account_call,
}
use lib_py.Consensus.Fees.{FeeSettlement}
use lib_py.Consensus.Ledger.{
  Account, find, total, Block, Transaction, storage_address, treasury_address,
}
use lib_py.Consensus.Ledger.Steps.{is_some, has}
use lib_py.Consensus.Ledger.Totals.{counter_of, counter_at}
use lib_py.Consensus.Apply.Counts.{tick, counter_at-deduct_work}
use lib_py.Consensus.Treasury.Conserve.Repay.{handle_treasury_repay-Adds}
use lib_py.Consensus.Treasury.Conserve.Close.{handle_treasury_close-Adds}
use lib_py.Consensus.Treasury.Conserve.Trade.{handle_treasury_claim-Adds}
use lib_py.Consensus.Treasury.Conserve.Borrow.{
  handle_treasury_borrow-Adds, handle_treasury_guarantee-Adds,
}
use lib_py.Consensus.Apply.{
  Work, Context, Receipt, Applied, raised, no_answer, applied, rollback, rate_valid,
}
use lib_py.Consensus.Apply.Codes.{match_code, initial_amount, credit_funding}
use lib_py.Consensus.Apply.Finish.{finish, apply_guarded, apply_tx_effects, deduct}
use lib_py.Consensus.Apply.Charges.{build_receipt}
use lib_py.Consensus.Apply.Sums.{
  Balanced, rollback-Balanced, Settled, settled_work-Settled, total-deduct,
}
use lib_py.Consensus.Apply.Branches.{
  Branch, get_or_create_recipient-Ready, credit_recipient-Balanced, unchanged, deposit-Balanced,
  create-Balanced, treasury-Branch, borrow-recipient, guarantee-recipient, repay-recipient,
  close-recipient, claim-recipient, guards-amount,
}

-- The codes whose branches move what is there, and neither mint nor take anything.
abbrev pub is_conserving : TransactionCode → Bool
is_conserving transfer = true
is_conserving treasury_deposit = true
is_conserving treasury_repay = true
is_conserving treasury_close = true
is_conserving treasury_claim = true
is_conserving treasury_borrow = true
is_conserving treasury_guarantee = true
is_conserving storage_remove = true
is_conserving code_account_create = true
is_conserving _ = false

-- What is applied has the sum of the block before, less the fees that nobody is paid, and its counters
-- with the one of the sender raised where the counters match.
abbrev Books : Bytes → Bool → Block → Applied → Type 0
Books sender matched before raised = Unit
Books sender matched before no_answer = Unit
Books sender matched before (applied b r seen) =
    (total b.accounts +ℤ r.transaction_fee +ℤ r.data_fee ≡ total before.accounts)
    × ((key : Bytes) → counter_at key b ≡ counter_at key before +ℤ tick matched sender key)

before-Books :
    (sender : Bytes) (matched : Bool) (before : Block) (o : Applied)
    → Books sender matched (record before { involved = [] }) o
    → Books sender matched before o
before-Books sender matched before raised h = tt
before-Books sender matched before no_answer h = tt
before-Books sender matched before (applied b r seen) h = h

module _ (c : Context) (tx : Transaction) (snapshot : Block) (there : has tx.sender snapshot ≡ true)
    (stored : has storage_address snapshot ≡ true) where
  -- A branch that runs only after the guards have passed.
  guarded-Branch :
      (ok : Bool) (o : Option Work) (w : Work)
      → (ok ≡ true → Branch tx snapshot there stored o)
      → w.success ≡ false
      → Branch tx snapshot there stored (if ok then o else some w)
  guarded-Branch true o w h e = h refl
  guarded-Branch false o w h e = λ f. cc

  match_code-Branch :
      (code : TransactionCode) (hash : Bytes) (ok : Bool) (amount : ℤ)
      → is_conserving code ≡ true
      → (ok ≡ true → amount ≡ initial_amount code tx.amount)
      → Branch tx snapshot there stored (match_code c code hash tx ok amount snapshot)
  unfolding match_code initial_amount
  match_code-Branch transfer hash ok amount h e =
      credit_recipient-Balanced tx snapshot there stored _
        (get_or_create_recipient-Ready tx snapshot there stored) ok amount
  match_code-Branch treasury_deposit hash ok amount h e =
      elim (Bool-cases (bytes_eq tx.recipient treasury_address)) [
        | inl r ↦ rw r (
            guarded-Branch ok _ _
              (λ _.
                deposit-Balanced tx snapshot there stored _
                  (get_or_create_recipient-Ready tx snapshot there stored) amount)
              refl)
        | inr r ↦ rw r (λ _.
            unchanged tx snapshot there stored _
              (get_or_create_recipient-Ready tx snapshot there stored) ok)
      ]
  match_code-Branch treasury_repay hash ok amount h e =
      guarded-Branch ok _ _
        (λ f.
          treasury-Branch tx snapshot there stored amount _ _ (inr refl)
            (repay-recipient tx snapshot there stored c.height snapshot)
            (rw (e f) ((handle_treasury_repay-Adds tx c.height).gained snapshot there)))
        refl
  match_code-Branch treasury_close hash ok amount h e =
      guarded-Branch ok _ _
        (λ f.
          treasury-Branch tx snapshot there stored amount _ _ (inl refl)
            (close-recipient tx snapshot there stored c.height snapshot)
            (rw (e f) ((handle_treasury_close-Adds tx c.height).gained snapshot there)))
        refl
  match_code-Branch treasury_claim hash ok amount h e =
      guarded-Branch ok _ _
        (λ f.
          treasury-Branch tx snapshot there stored (pos 0) _ _ (inl refl)
            (claim-recipient tx snapshot there stored c snapshot)
            ((handle_treasury_claim-Adds tx c.sender_of c.rate c.height).gained snapshot there))
        refl
  match_code-Branch storage_remove hash ok amount h e = λ _.
      unchanged tx snapshot there stored _ (get_or_create_recipient-Ready tx snapshot there stored)
        ok
  match_code-Branch code_account_create hash ok amount h e =
      guarded-Branch ok _ _ (λ f. rw (e f) (create-Balanced tx snapshot there stored hash)) refl
  match_code-Branch channel_update hash ok amount h e = cc
  match_code-Branch channel_withdraw hash ok amount h e = cc
  match_code-Branch channel_close hash ok amount h e = cc
  match_code-Branch treasury_borrow hash ok amount h e =
      guarded-Branch ok _ _
        (λ f.
          treasury-Branch tx snapshot there stored (pos 0) _ _ (inl refl)
            (borrow-recipient tx snapshot there stored c hash (c.references tx) snapshot)
            ((handle_treasury_borrow-Adds tx c.rate c.height hash (c.references tx)).gained snapshot
              there))
        refl
  match_code-Branch treasury_guarantee hash ok amount h e =
      guarded-Branch ok _ _
        (λ f.
          treasury-Branch tx snapshot there stored (pos 0) _ _ (inl refl)
            (guarantee-recipient tx snapshot there stored c.height hash snapshot)
            ((handle_treasury_guarantee-Adds tx c.height hash).gained snapshot there))
        refl
  match_code-Branch treasury_buy hash ok amount h e = cc
  match_code-Branch storage_create hash ok amount h e = cc
  match_code-Branch storage_payment hash ok amount h e = cc
  match_code-Branch code_account_call hash ok amount h e = cc

  first-Balanced :
      (w : Work)
      → (w.success ≡ true → Balanced tx snapshot w)
      → Balanced tx snapshot (if w.success then w else rollback snapshot w)
  first-Balanced w h = kept w.success h
    where
      kept :
          (ok : Bool)
          → (ok ≡ true → Balanced tx snapshot w)
          → Balanced tx snapshot (if ok then w else rollback snapshot w)
      kept true g = g refl
      kept false g = rollback-Balanced tx snapshot w there

  ended-Books :
      (hash : Bytes) (matched : Bool) (seen : List Bytes) (r : Work × Bool × FeeSettlement)
      → Settled tx snapshot r
      → (o : Option Account) → find storage_address r.0.block.accounts ≡ o
      → Books tx.sender matched snapshot (elim o [
        | none ↦ raised
        | some a ↦
            applied
              (deduct tx matched r.0 r.2)
              (build_receipt hash r.0 r.1 r.2.transaction_fee r.2.data_fee r.2.storage_fee)
              seen
      ])
  unfolding build_receipt
  ended-Books hash matched seen r h none e = tt
  ended-Books hash matched seen r h (some a) e = (
    total-deduct tx snapshot matched r.0 r.2 h.balanced (ap is_some e) h.moves,
    counter_at-deduct_work tx snapshot matched r.0 r.2 h.balanced (ap is_some e),
  )

  finish-Books :
      (hash : Bytes) (matched : Bool) (seen : List Bytes) (w : Work)
      → (w.success ≡ true → Balanced tx snapshot w)
      → Books tx.sender matched snapshot (finish c snapshot hash tx matched seen w)
  unfolding finish
  finish-Books hash matched seen w h =
      ended-Books hash matched _ _ (settled_work-Settled tx snapshot _ _ there (first-Balanced w h))
        _ refl

  apply_guarded-Books :
      (code : TransactionCode) (hash : Bytes) (seen : List Bytes) (sender : Account)
      → is_conserving code ≡ true
      → Books tx.sender
          (eqb_ℤ tx.counter sender.counter)
          snapshot
          (apply_guarded c code hash tx seen sender snapshot)
  unfolding apply_guarded
  apply_guarded-Books code hash seen sender h =
      after _ (match_code-Branch code hash _ _ h (guards-amount code tx sender))
    where
      after :
          (o : Option Work)
          → Branch tx snapshot there stored o
          → Books tx.sender (eqb_ℤ tx.counter sender.counter) snapshot (elim o [
            | none ↦ no_answer
            | some w ↦ finish c snapshot hash tx (eqb_ℤ tx.counter sender.counter) seen w
          ])
      after none g = tt
      after (some w) g = finish-Books hash _ seen w g

pub apply_tx_effects-Books :
    (c : Context) (code : TransactionCode) (hash : Bytes) (tx : Transaction) (seen : List Bytes)
    (block after : Block) (r : Receipt) (seen' : List Bytes)
    → is_conserving code ≡ true
    → has storage_address block ≡ true
    → apply_tx_effects c code hash tx seen block ≡ applied after r seen'
    → (total after.accounts +ℤ r.transaction_fee +ℤ r.data_fee ≡ total block.accounts)
      × ((key : Bytes)
          → counter_at key after
            ≡ counter_at key block
              +ℤ tick (eqb_ℤ tx.counter (counter_at tx.sender block)) tx.sender key)
unfolding apply_tx_effects
apply_tx_effects-Books c code hash tx seen block after r seen' h stored e =
    subst (λ o. Books tx.sender (eqb_ℤ tx.counter (counter_at tx.sender block)) block o) e
      (elim (Bool-cases (eqb_ℤ tx.chain_id c.chain_id && rate_valid c.previous)) [
        | inl valid ↦ rw (apply_tx_effects, valid) (sent (find tx.sender block.accounts) refl)
        | inr invalid ↦ rw (apply_tx_effects, invalid) tt
      ])
  where
    sent :
        (o : Option Account)
        → find tx.sender block.accounts ≡ o
        → Books tx.sender (eqb_ℤ tx.counter (counter_of o)) block (elim o [
          | none ↦ raised
          | some sender ↦
              if credit_funding code || leb_ℤ (pos 1) sender.balance
              then apply_guarded c code hash tx seen sender (record block { involved = [] })
              else raised
        ])
    sent none f = tt
    sent (some sender) f = elim (Bool-cases (credit_funding code || leb_ℤ (pos 1) sender.balance)) [
      | inl covered ↦ rw covered (
          before-Books tx.sender (eqb_ℤ tx.counter sender.counter) block _ (
            apply_guarded-Books c tx (record block { involved = [] }) (ap is_some f) stored code
              hash seen sender h))
      | inr short ↦ rw short tt
    ]

-- A transaction of one of the codes that transfer, deposit, borrow, guarantee, repay, close, claim,
-- remove or create an account keeps the sum of the balances, less the transaction fee and the data fee
-- of the receipt: whatever the amounts and the fees, whether it succeeds, fails in its handler or fails
-- in a later check, where the storage account is there.
pub total-apply_tx_effects :
    (c : Context) (code : TransactionCode) (hash : Bytes) (tx : Transaction) (seen : List Bytes)
    (block after : Block) (r : Receipt) (seen' : List Bytes)
    → is_conserving code ≡ true
    → has storage_address block ≡ true
    → apply_tx_effects c code hash tx seen block ≡ applied after r seen'
    → total after.accounts +ℤ r.transaction_fee +ℤ r.data_fee ≡ total block.accounts
total-apply_tx_effects c code hash tx seen block after r seen' h stored e =
    (apply_tx_effects-Books c code hash tx seen block after r seen' h stored e).0
