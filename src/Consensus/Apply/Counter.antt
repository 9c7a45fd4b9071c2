-- ===== src/Consensus/Apply/Counter.antt =====
-- The counter of the sender.
use lib_py.Base.{
  ◌≡◌, refl, sym, subst, ◌∙◌, Bool, true, false, ◌&&◌, ◌||◌, Option, none, some, List, [],
  if◌then◌else◌, arith, Bool-cases, inl, inr,
}
use lib_py.Base.Int.{ℤ, pos, leb_ℤ, eqb_ℤ}
use lib_py.Base.Bytes.{Bytes}
use lib_py.Consensus.Codes.{
  TransactionCode, transfer, channel_update, channel_withdraw, channel_close, treasury_deposit,
  treasury_borrow, treasury_repay, treasury_close, treasury_guarantee, treasury_buy, treasury_claim,
  storage_create, storage_payment, storage_remove, code_account_create, code_account_call,
}
use lib_py.Consensus.Fees.{FeeSettlement}
use lib_py.Consensus.Ledger.{Account, find, Block, Transaction, storage_address}
use lib_py.Consensus.Ledger.Totals.{counter_at}
use lib_py.Consensus.Apply.Sums.{counter_at-credit}
use lib_py.Consensus.Apply.{
  Work, Recipient, nobody, known, fresh, Context, Receipt, Applied, raised, no_answer, applied,
  rollback, rate_valid,
}
use lib_py.Consensus.Apply.Finish.{finish, apply_guarded, apply_tx_effects, deduct, write_recipient}
use lib_py.Consensus.Apply.Codes.{
  match_code, guards, fail_unless, initial_amount, credit_funding, credit_recipient,
}
use lib_py.Consensus.Apply.Charges.{build_receipt}
use lib_py.Consensus.Apply.Failure.{Restored, settled_work-Restored}
use lib_py.Consensus.Apply.Fails.{all_fees-fails, settled_work-fails}

-- The codes whose branches are translated.
abbrev pub is_translated : TransactionCode → Bool
is_translated transfer = true
is_translated treasury_deposit = true
is_translated treasury_repay = true
is_translated treasury_close = true
is_translated treasury_buy = true
is_translated treasury_claim = true
is_translated treasury_borrow = true
is_translated treasury_guarantee = true
is_translated storage_remove = true
is_translated code_account_create = true
is_translated _ = false

-- Whether the branch of the code has come to a success.
abbrev succeeded : Option Work → Bool
succeeded none = false
succeeded (some w) = w.success

credit_recipient-success :
    (r : Recipient) (ok : Bool) (x : ℤ) (b : Block) → (credit_recipient r ok x b).success ≡ ok
unfolding credit_recipient
credit_recipient-success nobody ok x b = refl
credit_recipient-success (known key) ok x b = refl
credit_recipient-success (fresh a) ok x b = refl

match_code-fails :
    (c : Context) (code : TransactionCode) (hash : Bytes) (tx : Transaction) (x : ℤ) (b : Block)
    → is_translated code ≡ true
    → succeeded (match_code c code hash tx false x b) ≡ false
unfolding match_code
match_code-fails c transfer hash tx x b h = credit_recipient-success _ false x b
match_code-fails c treasury_deposit hash tx x b h = ground arith
match_code-fails c treasury_repay hash tx x b h = refl
match_code-fails c treasury_close hash tx x b h = refl
match_code-fails c treasury_buy hash tx x b h = refl
match_code-fails c treasury_claim hash tx x b h = refl
match_code-fails c storage_remove hash tx x b h = refl
match_code-fails c code_account_create hash tx x b h = refl
match_code-fails c channel_update hash tx x b h = cc
match_code-fails c channel_withdraw hash tx x b h = cc
match_code-fails c channel_close hash tx x b h = cc
match_code-fails c treasury_borrow hash tx x b h = refl
match_code-fails c treasury_guarantee hash tx x b h = refl
match_code-fails c storage_create hash tx x b h = cc
match_code-fails c storage_payment hash tx x b h = cc
match_code-fails c code_account_call hash tx x b h = cc

-- The counter where the counters do not match and the work was taken back.
counter_at-deduct :
    (key : Bytes) (tx : Transaction) (snapshot : Block) (w : Work) (s : FeeSettlement)
    → Restored snapshot w
    → counter_at key (deduct tx false w s) ≡ counter_at key snapshot
unfolding deduct write_recipient
counter_at-deduct key tx snapshot w s h =
    rw (h.block_same, h.nobody_paid)
      (counter_at-credit key storage_address _ _ ∙ counter_at-credit key tx.sender _ snapshot)

-- A receipt without success, and the counter as it was.
abbrev Refused : Bytes → Block → Applied → Type 0
Refused key before raised = Unit
Refused key before no_answer = Unit
Refused key before (applied after r seen) =
    (r.success ≡ false) × (counter_at key after ≡ counter_at key before)

module _ (c : Context) (hash : Bytes) (tx : Transaction) (snapshot : Block) where
  ended-Refused :
      (seen : List Bytes) (r : Work × Bool × FeeSettlement) (o : Option Account)
      → r.1 ≡ false
      → Restored snapshot r.0
      → Refused tx.sender snapshot (elim o [
        | none ↦ raised
        | some a ↦
            applied
              (deduct tx false r.0 r.2)
              (build_receipt hash r.0 r.1 r.2.transaction_fee r.2.data_fee r.2.storage_fee)
              seen
      ])
  unfolding build_receipt
  ended-Refused seen r none h g = tt
  ended-Refused seen r (some a) h g = (h, counter_at-deduct tx.sender tx snapshot r.0 r.2 g)

  rollback-success :
      (w : Work)
      → w.success ≡ false
      → (if w.success then w else rollback snapshot w).success ≡ false
  unfolding rollback
  rollback-success w h = elim (Bool-cases w.success) [ inl e ↦ cc (e) | inr e ↦ ground arith ]

  finish-Refused :
      (seen : List Bytes) (w : Work)
      → w.success ≡ false
      → Refused tx.sender snapshot (finish c snapshot hash tx false seen w)
  unfolding finish
  finish-Refused seen w h =
      let fails =
        settled_work-fails c hash tx seen snapshot _ _
          (all_fees-fails c hash tx seen _ _ (rollback-success w h)) in
      ended-Refused _ _ _ fails (settled_work-Restored tx snapshot _ _ fails)

fail_unless-refuses : (b : Bool) (s : Bool × ℤ) → s.0 ≡ false → (fail_unless b s).0 ≡ false
unfolding fail_unless
fail_unless-refuses true s h = h
fail_unless-refuses false s h = refl

guards-refuse :
    (code : TransactionCode) (tx : Transaction) (sender : Account)
    → eqb_ℤ tx.counter sender.counter ≡ false
    → (guards code tx sender).0 ≡ false
unfolding guards
guards-refuse code tx sender e = fail_unless-refuses _ _ (fail_unless-refuses _ _ (mismatch _ e))
  where
    mismatch :
        (b : Bool) → b ≡ false → (fail_unless b (true, initial_amount code tx.amount)).0 ≡ false
    mismatch true f = cc
    mismatch false f = unfold fail_unless in refl

-- The counter is that of the block before the involved accounts are cleared.
before-Refused :
    (key : Bytes) (before : Block) (o : Applied)
    → Refused key (record before { involved = [] }) o
    → Refused key before o
before-Refused key before raised h = tt
before-Refused key before no_answer h = tt
before-Refused key before (applied b r seen) h = h

apply_guarded-Refused :
    (c : Context) (code : TransactionCode) (hash : Bytes) (tx : Transaction) (seen : List Bytes)
    (sender : Account) (snapshot : Block)
    → is_translated code ≡ true
    → eqb_ℤ tx.counter sender.counter ≡ false
    → Refused tx.sender snapshot (apply_guarded c code hash tx seen sender snapshot)
unfolding apply_guarded
apply_guarded-Refused c code hash tx seen sender snapshot h e =
    after _ (match_refused (guards code tx sender).0 refused)
  where
    refused : (guards code tx sender).0 ≡ false
    refused = guards-refuse code tx sender e

    match_refused :
        (ok : Bool)
        → ok ≡ false
        → succeeded (match_code c code hash tx ok (guards code tx sender).1 snapshot) ≡ false
    match_refused true f = cc
    match_refused false f = match_code-fails c code hash tx _ snapshot h

    after :
        (o : Option Work)
        → succeeded o ≡ false
        → Refused tx.sender snapshot (elim o [
          | none ↦ no_answer
          | some w ↦ finish c snapshot hash tx (eqb_ℤ tx.counter sender.counter) seen w
        ])
    after none g = tt
    after (some w) g =
        subst (λ m. Refused tx.sender snapshot (finish c snapshot hash tx m seen w)) (sym e)
          (finish-Refused c hash tx snapshot seen w g)

-- A transaction whose counter is not the sender's is never a success, and leaves the counter as it is:
-- for every code but those of channels, storage contracts and calls, whatever its amount and its data.
pub wrong_counter :
    (c : Context) (code : TransactionCode) (hash : Bytes) (tx : Transaction) (seen : List Bytes)
    (block after : Block) (r : Receipt) (seen' : List Bytes)
    → is_translated code ≡ true
    → eqb_ℤ tx.counter (counter_at tx.sender block) ≡ false
    → apply_tx_effects c code hash tx seen block ≡ applied after r seen'
    → (r.success ≡ false) × (counter_at tx.sender after ≡ counter_at tx.sender block)
unfolding apply_tx_effects
wrong_counter c code hash tx seen block after r seen' h differs e =
    failing _ e (elim (Bool-cases (eqb_ℤ tx.chain_id c.chain_id && rate_valid c.previous)) [
      | inl valid ↦ rw (apply_tx_effects, valid) (sent (find tx.sender block.accounts) refl)
      | inr invalid ↦ rw (apply_tx_effects, invalid) tt
    ])
  where
    failing :
        (o : Applied)
        → o ≡ applied after r seen'
        → Refused tx.sender block o
        → (r.success ≡ false) × (counter_at tx.sender after ≡ counter_at tx.sender block)
    failing raised f g = cc
    failing no_answer f g = cc
    failing (applied b x y) f g = subst (λ o. Refused tx.sender block o) f g

    sent :
        (o : Option Account)
        → find tx.sender block.accounts ≡ o
        → Refused tx.sender block (elim o [
          | none ↦ raised
          | some sender ↦
              if credit_funding code || leb_ℤ (pos 1) sender.balance
              then apply_guarded c code hash tx seen sender (record block { involved = [] })
              else raised
        ])
    sent none f = tt
    sent (some sender) f = elim (Bool-cases (credit_funding code || leb_ℤ (pos 1) sender.balance)) [
      | inl covered ↦ rw covered (
          before-Refused tx.sender block _ (
            apply_guarded-Refused c code hash tx seen sender (record block { involved = [] }) h
              (rw f at differs)))
      | inr short ↦ rw short tt
    ]
