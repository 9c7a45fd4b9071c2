-- ===== src/Consensus/Treasury/Guarantors.antt =====
-- What a loan does to the guarantees of the borrower himself.
use lib_py.Base.{
  ℕ, zero, suc, ◌*◌, leb, ◌≡◌, refl, ap, true, false, Option, none, some, List, [], ◌∷◌, Bool-cases,
  inl, inr,
}
use lib_py.Base.Int.{ℤ, pos, negsuc, ◌+ℤ◌, ◌-ℤ◌, ltb_ℤ, leb_ℤ}
use lib_py.Base.Bytes.{Bytes}
use lib_py.Consensus.Ledger.{
  UserRecord, Account, find, Block, Outcome, done, failed, aborted, next, need, guard, get_account,
  Transaction, treasury_address,
}
use lib_py.Consensus.Treasury.{for_payment, put_loan, find_loan}
use lib_py.Consensus.Treasury.Borrow.{
  insurance_fee, discounted_amount, Terms, request_of, secured_loan_remaining_total, new_loan,
  borrow_secured, lend_unsecured, borrow_unsecured, borrow_against, borrow_as,
  handle_treasury_borrow,
}
use lib_py.Consensus.Treasury.Guarantees.{
  pay_guarantors, claim_refs, Claimed, user_or_new, are_distinct, within_interest, is_free,
  total_price,
}
use lib_py.Consensus.Treasury.Records.{
  Ends, record_of, Same, Ended, then-Ends, need-Ends, lend-Ends, lend_and_count-Ends,
}

module _ (rate : ℕ → Option (ℤ × ℤ)) (height : ℕ) (hash : Bytes) (tx : Transaction)
    (t : Account) where
  abbrev s : Bytes
  s = tx.sender

  abbrev user : UserRecord
  user = user_or_new (t.users s)

  own : (u : UserRecord) → t.users s ≡ some u → Same user (some u)
  own u e = rw e (λ k. refl, refl)

  borrow_secured-Ends : (terms : Terms) → Ends s user (borrow_secured rate height hash tx t terms)
  unfolding borrow_secured put_loan
  borrow_secured-Ends terms = then-Ends s user (discounted_amount rate height hash tx terms) _ λ n.
      need-Ends s user (t.users s) _ λ u e.
        then-Ends s user (need (secured_loan_remaining_total u.loans)) _ λ owed.
          then-Ends s user
            (guard (leb_ℤ (pos (terms.amount * terms.count)) (u.balance -ℤ pos owed))) _
            λ _. then-Ends s user (guard (leb_ℤ (pos n) t.balance)) _ λ _.
              then-Ends s user (guard (is_free (find_loan hash u.loans))) _ λ _.
                lend-Ends s user (put_loan hash (new_loan height terms n false []) u) (pos n)
                  (pos n) (own u e)

  lend_unsecured-Ends :
      (terms : Terms) (n : ℕ) (c : Claimed) (fee : ℤ)
      → Ends s user (lend_unsecured rate height hash tx t terms n user c fee)
  unfolding lend_unsecured put_loan
  lend_unsecured-Ends terms n c fee =
      let paid = pos n -ℤ fee in
      let net = pos n -ℤ fee -ℤ pos (total_price c.states) in
      let new = record (put_loan hash (new_loan height terms n true c.entries) user) {
        loaned = user.loaned +ℤ pos n;
      } in
      then-Ends s user (guard (ltb_ℤ (pos 0) net)) _ λ _.
        then-Ends s user (guard (leb_ℤ paid t.balance)) _ λ _.
          then-Ends s user (guard (is_free (find_loan hash user.loans))) _ λ _.
            then-Ends s user (pay_guarantors c.states) _
              λ _. lend_and_count-Ends s user new paid net n (λ k. refl, refl)

  borrow_unsecured-Ends :
      (terms : Terms) (refs : List (Bytes × Bytes))
      → Ends s user (borrow_unsecured rate height hash tx t terms refs)
  unfolding borrow_unsecured
  borrow_unsecured-Ends terms refs = then-Ends s user (guard (are_distinct refs)) _ λ _.
      then-Ends s user (discounted_amount rate height hash tx terms) _ λ n.
        then-Ends s user
          (claim_refs t.users height hash (terms.interval * terms.count) refs
            (record { states = []; entries = []; covered = 0 }))
          _
          λ c. then-Ends s user (guard (leb n c.covered)) _ λ _.
            then-Ends s user (guard (within_interest c.states)) _ λ _.
              then-Ends s user (insurance_fee n user) _ λ fee. lend_unsecured-Ends terms n c fee

  borrow_against-Ends :
      (refs : Option (List (Bytes × Bytes))) (terms : Terms)
      → Ends s user (borrow_against rate height hash tx refs t terms)
  unfolding borrow_against
  borrow_against-Ends none terms = record { ended = λ b. tt }
  borrow_against-Ends (some []) terms = record { ended = λ b. tt }
  borrow_against-Ends (some (r ∷ rest)) terms = borrow_unsecured-Ends terms (r ∷ rest)

  borrow_as-Ends :
      (loan_type : ℤ) (refs : Option (List (Bytes × Bytes))) (terms : Terms)
      → Ends s user (borrow_as rate height hash tx loan_type refs t terms)
  unfolding borrow_as
  borrow_as-Ends (pos zero) refs terms = borrow_secured-Ends terms
  borrow_as-Ends (pos (suc zero)) refs terms = borrow_against-Ends refs terms
  borrow_as-Ends (pos (suc (suc n))) refs terms = record { ended = λ b. tt }
  borrow_as-Ends (negsuc n) refs terms = record { ended = λ b. tt }

-- After a loan, secured or not, the borrower's own guarantees are in his record as they were before it,
-- and so is the sum that he guarantees: those that the loan itself has claimed as well, which stay
-- unclaimed and can be claimed again.
pub borrow-own_guarantees :
    (rate : ℕ → Option (ℤ × ℤ)) (height : ℕ) (hash : Bytes) (tx : Transaction)
    (references : Option (List (Bytes × Bytes))) (before after : Block) (t : Account)
    → find treasury_address before.accounts ≡ some t
    → handle_treasury_borrow rate height hash tx references before ≡ (done tt, after)
    → Same (user_or_new (t.users tx.sender)) (record_of tx.sender after)
unfolding handle_treasury_borrow get_account need
borrow-own_guarantees rate height hash tx references before after t there e =
    reached (handle_treasury_borrow rate height hash tx references before) e
      (elim (Bool-cases (for_payment tx)) [
        | inl pays ↦
            rw (handle_treasury_borrow, pays)
              (rw (handle_treasury_borrow, get_account, there) (asked (request_of tx)))
        | inr other ↦ rw (handle_treasury_borrow, other) tt
      ])
  where
    reached :
        (r : Outcome (Unit {0}) × Block)
        → r ≡ (done tt, after)
        → Ended tx.sender (user_or_new (t.users tx.sender)) r
        → Same (user_or_new (t.users tx.sender)) (record_of tx.sender after)
    reached (done u, b) f g = rw (ap (λ x. x.1) f) at g
    reached (failed, b) f g = cc (f)
    reached (aborted, b) f g = cc (f)

    asked :
        (o : Option (ℤ × Terms))
        → Ended tx.sender
            (user_or_new (t.users tx.sender))
            (next (λ r. borrow_as rate height hash tx r.0 references t r.1) (need o before))
    asked none = tt
    asked (some (loan_type, terms)) =
        (borrow_as-Ends rate height hash tx t loan_type references terms).ended before
