-- ===== src/Consensus/Apply/Branches.antt =====
-- The branches of the transaction codes that move what is there.
use lib_py.Base.{
  ℕ, ◌≡◌, refl, sym, ap, ◌∙◌, ◌⊎◌, Bool, true, false, not, ◌||◌, Option, none, some, List, arith,
  Bool-cases, Option-cases, inl, inr, length, ◌==◌,
}
use lib_py.Base.Int.{ℤ, pos, ◌+ℤ◌, int_laws}
use lib_py.Base.Bytes.{Bytes, bytes_eq, bytes_eq→eq}
use lib_py.Consensus.Codes.{TransactionCode}
use lib_py.Consensus.Ledger.{
  Account, Ledger, find, put, Block, Transaction, Outcome, done, failed, aborted, set_account,
  storage_address, treasury_address,
}
use lib_py.Consensus.Ledger.Totals.{
  total-put_new, find-put_self, find-put_other, counter_of-put, counter_of-put_new,
}
use lib_py.Consensus.Ledger.Steps.{is_some, has, Gained}
use lib_py.Consensus.Treasury.{for_payment}
use lib_py.Consensus.Treasury.Repay.{handle_treasury_repay}
use lib_py.Consensus.Treasury.Close.{handle_treasury_close}
use lib_py.Consensus.Treasury.Trade.{handle_treasury_claim}
use lib_py.Consensus.Treasury.Borrow.{handle_treasury_borrow}
use lib_py.Consensus.Treasury.Guarantees.{handle_treasury_guarantee}
use lib_py.Consensus.Apply.{Work, Recipient, nobody, known, fresh, Context, work}
use lib_py.Consensus.Ledger.{new_account}
use lib_py.Consensus.Apply.Codes.{
  handled, deposit, deposit_record, credit_recipient, get_or_create_recipient, guards, fail_unless,
  initial_amount, handle_expression_account_create, program_hash, treasury_if_named,
}
use lib_py.Consensus.Apply.Sums.{
  total-change, is_some-put, credit-Keeps, counter_at-credit, outside, Placed, Balanced,
}

fail_unless-passes : (b : Bool) (s : Bool × ℤ) → (fail_unless b s).0 ≡ true → fail_unless b s ≡ s
unfolding fail_unless
fail_unless-passes true s e = refl
fail_unless-passes false s e = cc

-- Where the guards pass, the amount to move is that of the code.
pub guards-amount :
    (code : TransactionCode) (tx : Transaction) (sender : Account)
    → (guards code tx sender).0 ≡ true
    → (guards code tx sender).1 ≡ initial_amount code tx.amount
unfolding guards
guards-amount code tx sender e =
    let third = fail_unless-passes _ _ e in
    let second = fail_unless-passes _ _ (sym (ap (λ s. s.0) third) ∙ e) in
    let first =
      fail_unless-passes _ _ (sym (ap (λ s. s.0) second) ∙ sym (ap (λ s. s.0) third) ∙ e) in
    ap (λ s. s.1) third ∙ ap (λ s. s.1) second ∙ ap (λ s. s.1) first

module _ (tx : Transaction) (snapshot : Block) (there : has tx.sender snapshot ≡ true)
    (stored : has storage_address snapshot ≡ true) where
  -- What the branch of the code leaves, if it is a success.
  abbrev pub Branch : Option Work → Type 0
  Branch none = Unit
  Branch (some w) = w.success ≡ true → Balanced tx snapshot w

  -- A recipient's account before anything is moved.
  abbrev pub Ready : Recipient → Type 0
  Ready nobody = ⊥
  Ready (known key) = (key ≡ tx.recipient) × (has key snapshot ≡ true)
  Ready (fresh a) = (a.balance ≡ pos 0) × (has tx.recipient snapshot ≡ false) × (a.counter ≡ pos 0)

  pub unchanged :
      (r : Recipient) → Ready r → (ok : Bool) → Balanced tx snapshot (work snapshot ok (pos 0) r)
  unchanged nobody h ok = absurd h
  unchanged (known key) h ok = record {
    sum = refl;
    there = there;
    placed = h.0;
    counters = λ k. refl;
  }
  unchanged (fresh a) h ok = record {
    sum = rw h.0 refl;
    there = there;
    placed = (h.1, h.2);
    counters = λ k. refl;
  }

  Ready-found :
      (o : Option Account)
      → find tx.recipient snapshot.accounts ≡ o
      → Ready (elim o [ none ↦ fresh new_account | some a ↦ known tx.recipient ])
  Ready-found none e = (refl, ap is_some e, refl)
  Ready-found (some a) e = (refl, ap is_some e)

  pub get_or_create_recipient-Ready : Ready (get_or_create_recipient tx snapshot)
  unfolding get_or_create_recipient
  get_or_create_recipient-Ready = elim (Bool-cases (bytes_eq tx.recipient tx.sender)) [
    | inl e ↦ rw e (sym (bytes_eq→eq tx.recipient tx.sender e), there)
    | inr e ↦ elim (Bool-cases (bytes_eq tx.recipient storage_address)) [
      | inl f ↦ rw (e, f) (sym (bytes_eq→eq tx.recipient storage_address f), stored)
      | inr f ↦ rw (e, f) (Ready-found (find tx.recipient snapshot.accounts) refl)
    ]
  ]

  pub credit_recipient-Balanced :
      (r : Recipient)
      → Ready r
      → (ok : Bool) (amount : ℤ) → Branch (some (credit_recipient r ok amount snapshot))
  unfolding credit_recipient
  credit_recipient-Balanced nobody h ok amount = absurd h
  credit_recipient-Balanced (known key) h ok amount = λ _.
      let k = credit-Keeps key amount snapshot _ refl h.1 in
      record {
        sum = rw k.sum (omega int_laws);
        there = k.same tx.sender ∙ there;
        placed = h.0;
        counters = λ n. counter_at-credit n key amount snapshot;
      }
  credit_recipient-Balanced (fresh a) h ok amount = λ _. record {
    sum = rw h.0 (omega int_laws);
    there = there;
    placed = (h.1, h.2);
    counters = λ k. refl;
  }

  handled-Branch :
      (amount : ℤ) (r : Recipient) (o : Outcome (Unit {0}) × Block)
      → (outside r ≡ pos 0) × ((b : Block) → Placed tx b r)
      → Gained tx.sender amount snapshot o
      → Branch (handled amount r o)
  unfolding handled
  handled-Branch amount r (done u, b) h g = λ _. record {
    sum = rw (h.0, g.0) (omega int_laws);
    there = g.1;
    placed = h.1 b;
    counters = g.2;
  }
  handled-Branch amount r (failed, b) h g = λ e. cc
  handled-Branch amount r (aborted, b) h g = tt

  deposit_record-balance :
      (amount : ℤ) (a a' : Account)
      → deposit_record tx amount a ≡ some a'
      → a'.balance ≡ a.balance +ℤ amount
  unfolding deposit_record
  deposit_record-balance amount a a' e = ground arith

  deposit_record-counter :
      (amount : ℤ) (a a' : Account) → deposit_record tx amount a ≡ some a' → a'.counter ≡ a.counter
  unfolding deposit_record
  deposit_record-counter amount a a' e = ground arith

  failure : (b : Block) (amount : ℤ) (r : Recipient) → Branch (some (work b false amount r))
  failure b amount r e = cc

  pub deposit-Balanced :
      (r : Recipient) → Ready r → (amount : ℤ) → Branch (some (deposit tx r amount snapshot))
  unfolding deposit
  deposit-Balanced nobody h amount = absurd h
  deposit-Balanced (fresh a) h amount = elim (Option-cases (deposit_record tx amount a)) [
    | inl n ↦ rw (deposit, n) (failure _ _ _)
    | inr (a', m) ↦
        rw (deposit, m)
          (λ _. record {
            sum = rw (deposit_record-balance amount a a' m, h.0) (omega int_laws);
            there = there;
            placed = (h.1, deposit_record-counter amount a a' m ∙ h.2);
            counters = λ k. refl;
          })
  ]
  deposit-Balanced (known key) h amount = elim (Option-cases (find key snapshot.accounts)) [
    | inl n ↦ rw (deposit, n) (failure _ _ _)
    | inr (a, f) ↦ elim (Option-cases (deposit_record tx amount a)) [
      | inl n ↦ rw (deposit, f, n) (failure _ _ _)
      | inr (a', m) ↦
          rw (deposit, f, m)
            (λ _. record {
              sum =
                  rw
                    (total-change key a a' snapshot.accounts amount f
                      (deposit_record-balance amount a a' m))
                    (omega int_laws);
              there = is_some-put tx.sender key a a' snapshot.accounts f ∙ there;
              placed = h.0;
              counters = λ k.
                  counter_of-put k key a a' snapshot.accounts f
                    (deposit_record-counter amount a a' m);
            })
    ]
  ]

  has-put_new :
      (key other : Bytes) (a : Account) (l : Ledger)
      → is_some (find key l) ≡ true
      → is_some (find key (put other a l)) ≡ true
  has-put_new key other a l h = elim (Bool-cases (bytes_eq other key)) [
    | inl e ↦ rw (bytes_eq→eq other key e, find-put_self key a l) refl
    | inr e ↦ rw (find-put_other other key a l e) h
  ]

  pub create-Balanced :
      (hash : Bytes) → Branch (some (handle_expression_account_create hash tx tx.amount snapshot))
  unfolding handle_expression_account_create set_account
  create-Balanced hash = elim (Option-cases (program_hash tx)) [
    | inl n ↦ rw (handle_expression_account_create, n) (failure _ _ _)
    | inr (program, m) ↦
        elim (Bool-cases (
          not (length tx.recipient == 0)
          || (not (length hash == 32) || not (length program == 32)))) [
            | inl bad ↦ rw (handle_expression_account_create, m, bad) (failure _ _ _)
            | inr good ↦ elim (Option-cases (find hash snapshot.accounts)) [
              | inr (a, f) ↦ rw (handle_expression_account_create, m, good, f) (failure _ _ _)
              | inl f ↦
                  rw (handle_expression_account_create, m, good, f)
                    (λ _. record {
                      sum =
                          rw
                            (total-put_new hash
                              (record new_account { balance = tx.amount; code_hash = program })
                              snapshot.accounts f)
                            (omega int_laws);
                      there = has-put_new tx.sender hash _ snapshot.accounts there;
                      placed = tt;
                      counters = λ k. counter_of-put_new k hash _ snapshot.accounts f refl;
                    })
            ]
          ]
  ]

  -- The treasury's handlers fail for another recipient.
  pub repay-recipient :
      (height : ℕ) (b : Block)
      → bytes_eq tx.recipient treasury_address ≡ false
      → handle_treasury_repay height tx b ≡ (failed, b)
  unfolding handle_treasury_repay for_payment
  repay-recipient height b e = rw e refl

  pub close-recipient :
      (height : ℕ) (b : Block)
      → bytes_eq tx.recipient treasury_address ≡ false
      → handle_treasury_close height tx b ≡ (failed, b)
  unfolding handle_treasury_close for_payment
  close-recipient height b e = rw e refl

  pub claim-recipient :
      (c : Context) (b : Block)
      → bytes_eq tx.recipient treasury_address ≡ false
      → handle_treasury_claim c.sender_of c.rate c.height tx b ≡ (failed, b)
  unfolding handle_treasury_claim
  claim-recipient c b e = rw e refl

  pub borrow-recipient :
      (c : Context) (hash : Bytes) (refs : Option (List (Bytes × Bytes))) (b : Block)
      → bytes_eq tx.recipient treasury_address ≡ false
      → handle_treasury_borrow c.rate c.height hash tx refs b ≡ (failed, b)
  unfolding handle_treasury_borrow for_payment
  borrow-recipient c hash refs b e = rw e refl

  pub guarantee-recipient :
      (height : ℕ) (hash : Bytes) (b : Block)
      → bytes_eq tx.recipient treasury_address ≡ false
      → handle_treasury_guarantee height hash tx b ≡ (failed, b)
  unfolding handle_treasury_guarantee
  guarantee-recipient height hash b e = rw e refl

  pub treasury-Branch :
      (amount : ℤ) (r : Recipient) (o : Outcome (Unit {0}) × Block)
      → (r ≡ known treasury_address) ⊎ (r ≡ treasury_if_named tx)
      → (bytes_eq tx.recipient treasury_address ≡ false → o ≡ (failed, snapshot))
      → Gained tx.sender amount snapshot o
      → Branch (handled amount r o)
  unfolding treasury_if_named
  treasury-Branch amount r o which refused g =
      elim (Bool-cases (bytes_eq tx.recipient treasury_address)) [
        | inl e ↦ handled-Branch amount r o (at_treasury e which) g
        | inr e ↦ rw (refused e) (handled_failed)
      ]
    where
      at_treasury :
          bytes_eq tx.recipient treasury_address ≡ true
          → (r ≡ known treasury_address) ⊎ (r ≡ treasury_if_named tx)
          → (outside r ≡ pos 0) × ((b : Block) → Placed tx b r)
      at_treasury e (inl h) = rw h (refl, λ b. sym (bytes_eq→eq tx.recipient treasury_address e))
      at_treasury e (inr h) =
          rw (h, treasury_if_named, e)
            (refl, λ b. sym (bytes_eq→eq tx.recipient treasury_address e))

      handled_failed : Branch (handled amount r (failed, snapshot))
      handled_failed = unfold handled in λ e. cc
