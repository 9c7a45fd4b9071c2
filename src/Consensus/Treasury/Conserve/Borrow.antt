-- ===== src/Consensus/Treasury/Conserve/Borrow.antt =====
-- What lending and a guarantee add to the sum of the balances: nothing.
use lib_py.Base.{
  ℕ, zero, suc, ◌+◌, ◌≡◌, refl, sym, true, Option, none, some, List, [], ◌∷◌, if◌then◌else◌,
  Bool-cases, inl, inr,
}
use lib_py.Base.Int.{ℤ, pos, negsuc, ◌+ℤ◌, ◌-ℤ◌, ◌*ℤ◌, int_laws, leb_ℤ}
use lib_py.Base.Bytes.{Bytes, bytes_eq}
use lib_py.Consensus.Ledger.{
  UserRecord, Account, new_account, find, Block, set_account, Transaction, treasury_address,
}
use lib_py.Consensus.Ledger.Totals.{total-put_new, counter_of-put_new}
use lib_py.Consensus.Ledger.Steps.{
  has, Gained, Adds, pure-Adds, fail-Adds, >>=-Adds, then-Adds, before-Adds, if-Adds, guard-Adds,
  need-Adds, get_account-Adds, has-put, set_account-Gained, write-Adds,
}
use lib_py.Consensus.Treasury.{for_payment, to_treasury}
use lib_py.Consensus.Treasury.Borrow.{
  add_loaned, Terms, insurance_fee, lend, discounted_amount, borrow_secured, lend_unsecured,
  borrow_unsecured, borrow_against, borrow_as, handle_treasury_borrow,
}
use lib_py.Consensus.Treasury.Guarantees.{
  write_user, move, pay_found, pay_or_create, State, Claimed, claim_refs, pay_guarantors,
  total_price, post_guarantee, handle_treasury_guarantee,
}

write_user-Adds : (key user : Bytes) (u : UserRecord) → Adds key (pos 0) (write_user user u)
unfolding write_user
write_user-Adds key user u =
    write-Adds key treasury_address (pos 0)
      (λ a. record a { users = λ k. if bytes_eq user k then some u else a.users k })
      (λ a. omega int_laws) (λ a. refl)

move-Adds : (key other : Bytes) (x : ℤ) → Adds key x (move other x)
unfolding move
move-Adds key other x =
    write-Adds key other x (λ a. record a { balance = a.balance +ℤ x }) (λ a. refl) (λ a. refl)

add_loaned-Adds : (key : Bytes) (n : ℕ) → Adds key (pos 0) (add_loaned n)
unfolding add_loaned
add_loaned-Adds key n = record { gained = λ b h. (omega int_laws, h, λ k. refl) }

pay_found-Gained :
    (key other : Bytes) (n : ℕ) (b : Block) (o : Option Account)
    → find other b.accounts ≡ o
    → has key b ≡ true
    → Gained key (pos n) b (pay_found other n o b)
unfolding pay_found set_account
pay_found-Gained key other n b none e h = (
  total-put_new other (record new_account { balance = pos n }) b.accounts e,
  has-put key other _ b.accounts h,
  λ k. counter_of-put_new k other (record new_account { balance = pos n }) b.accounts e refl,
)
pay_found-Gained key other n b (some a) e h =
    set_account-Gained key other (pos n) (λ a. record a { balance = a.balance +ℤ pos n })
      (λ a. refl) (λ a. refl) b a e h

pay_or_create-Adds : (key other : Bytes) (n : ℕ) → Adds key (pos n) (pay_or_create other n)
unfolding pay_or_create
pay_or_create-Adds key other n = record {
  gained = λ b h. pay_found-Gained key other n b (find other b.accounts) refl h;
}

pay_guarantors-Adds :
    (key : Bytes) (states : List (Bytes × State))
    → Adds key (pos (total_price states)) (pay_guarantors states)
unfolding pay_guarantors total_price
pay_guarantors-Adds key [] = pure-Adds key tt
pay_guarantors-Adds key ((g, s) ∷ rest) =
    let sum : pos s.price_total +ℤ pos (total_price rest) ≡ pos (s.price_total + total_price rest) =
      omega int_laws in
    rw (sym sum) (
      >>=-Adds key (pos s.price_total) (pos (total_price rest))
        (pay_or_create-Adds key g s.price_total)
        λ _.
          then-Adds key (pos (total_price rest)) (write_user-Adds key g _)
            λ _. pay_guarantors-Adds key rest)

lend-Adds :
    (key borrower : Bytes) (u : UserRecord) (paid received : ℤ)
    → Adds key ((pos 0 -ℤ paid) +ℤ received) (lend borrower u paid received)
unfolding lend
lend-Adds key borrower u paid received = then-Adds key _ (write_user-Adds key borrower u) λ _.
    >>=-Adds key (pos 0 -ℤ paid) received (move-Adds key treasury_address _)
      λ _. move-Adds key borrower received

claim_refs-Adds :
    (key : Bytes) (users : Bytes → Option UserRecord) (height : ℕ) (hash : Bytes) (duration : ℕ)
    (refs : List (Bytes × Bytes)) (c : Claimed)
    → Adds key (pos 0) (claim_refs users height hash duration refs c)
unfolding claim_refs
claim_refs-Adds key users height hash duration [] c = pure-Adds key c
claim_refs-Adds key users height hash duration ((g, i) ∷ rest) c =
    then-Adds key (pos 0) (guard-Adds key _) λ _. then-Adds key (pos 0) (need-Adds key _) λ s.
      then-Adds key (pos 0) (need-Adds key _) λ claim.
        then-Adds key (pos 0) (guard-Adds key _)
          λ _. claim_refs-Adds key users height hash duration rest _

insurance_fee-Adds : (key : Bytes) (n : ℕ) (u : UserRecord) → Adds key (pos 0) (insurance_fee n u)
unfolding insurance_fee
insurance_fee-Adds key n u = record {
  gained = λ b h. elim (Bool-cases (leb_ℤ b.global_loan_count (pos 0))) [
    | inl e ↦ rw (insurance_fee, e) (omega int_laws, h, λ k. refl)
    | inr e ↦
        elim (Bool-cases (leb_ℤ (u.loaned *ℤ b.global_loan_count +ℤ b.global_loaned) (pos 0))) [
          | inl f ↦ rw (insurance_fee, e, f) tt
          | inr f ↦ rw (insurance_fee, e, f) (omega int_laws, h, λ k. refl)
        ]
  ];
}

module _ (tx : Transaction) where
  abbrev s : Bytes
  s = tx.sender

  pub handle_treasury_guarantee-Adds :
      (height : ℕ) (hash : Bytes) → Adds s (pos 0) (handle_treasury_guarantee height hash tx)
  unfolding handle_treasury_guarantee post_guarantee
  handle_treasury_guarantee-Adds height hash =
      if-Adds s (pos 0) (to_treasury tx)
        (then-Adds s (pos 0) (get_account-Adds s treasury_address) λ t.
          then-Adds s (pos 0) (need-Adds s _)
            λ g. then-Adds s (pos 0) (guard-Adds s _) λ _. write_user-Adds s s _)
        (fail-Adds s (pos 0))

  module _ (rate : ℕ → Option (ℤ × ℤ)) (height : ℕ) (hash : Bytes) where
    discounted_amount-Adds : (t : Terms) → Adds s (pos 0) (discounted_amount rate height hash tx t)
    unfolding discounted_amount
    discounted_amount-Adds t = then-Adds s (pos 0) (need-Adds s _) λ f. need-Adds s _

    lent-Adds : (u : UserRecord) (n : ℕ) → Adds s (pos 0) (lend s u (pos n) (pos n))
    lent-Adds u n =
        let none_added : (pos 0 -ℤ pos n) +ℤ pos n ≡ pos 0 = omega int_laws in
        rw (sym none_added) (lend-Adds s s u (pos n) (pos n))

    borrow_secured-Adds :
        (a : Account) (t : Terms) → Adds s (pos 0) (borrow_secured rate height hash tx a t)
    unfolding borrow_secured
    borrow_secured-Adds a t = then-Adds s (pos 0) (discounted_amount-Adds t) λ n.
        then-Adds s (pos 0) (need-Adds s _) λ u. then-Adds s (pos 0) (need-Adds s _) λ owed.
          then-Adds s (pos 0) (guard-Adds s _) λ _.
            then-Adds s (pos 0) (guard-Adds s _)
              λ _. then-Adds s (pos 0) (guard-Adds s _) λ _. lent-Adds _ n

    -- What the guarantors and the borrower are paid leaves the treasury.
    lend_unsecured-Adds :
        (a : Account) (t : Terms) (n : ℕ) (u : UserRecord) (c : Claimed) (fee : ℤ)
        → Adds s (pos 0) (lend_unsecured rate height hash tx a t n u c fee)
    unfolding lend_unsecured
    lend_unsecured-Adds a t n u c fee =
        let price = pos (total_price c.states) in
        let paid = pos n -ℤ fee in
        let none_added : price +ℤ ((pos 0 -ℤ paid) +ℤ (pos n -ℤ fee -ℤ price)) ≡ pos 0 =
          omega int_laws in
        then-Adds s (pos 0) (guard-Adds s _) λ _. then-Adds s (pos 0) (guard-Adds s _) λ _.
          then-Adds s (pos 0) (guard-Adds s _) λ _. rw (sym none_added) (
            >>=-Adds s price ((pos 0 -ℤ paid) +ℤ (pos n -ℤ fee -ℤ price))
              (pay_guarantors-Adds s c.states)
              λ _. before-Adds s _ (lend-Adds s s _ paid _) λ _. add_loaned-Adds s n)

    borrow_unsecured-Adds :
        (a : Account) (t : Terms) (refs : List (Bytes × Bytes))
        → Adds s (pos 0) (borrow_unsecured rate height hash tx a t refs)
    unfolding borrow_unsecured
    borrow_unsecured-Adds a t refs = then-Adds s (pos 0) (guard-Adds s _) λ _.
        then-Adds s (pos 0) (discounted_amount-Adds t) λ n.
          then-Adds s (pos 0) (claim_refs-Adds s _ height hash _ refs _) λ c.
            then-Adds s (pos 0) (guard-Adds s _) λ _. then-Adds s (pos 0) (guard-Adds s _) λ _.
              then-Adds s (pos 0) (insurance_fee-Adds s n _)
                λ fee. lend_unsecured-Adds a t n _ c fee

    borrow_against-Adds :
        (refs : Option (List (Bytes × Bytes))) (a : Account) (t : Terms)
        → Adds s (pos 0) (borrow_against rate height hash tx refs a t)
    unfolding borrow_against
    borrow_against-Adds none a t = fail-Adds s (pos 0)
    borrow_against-Adds (some []) a t = fail-Adds s (pos 0)
    borrow_against-Adds (some (r ∷ rest)) a t = borrow_unsecured-Adds a t (r ∷ rest)

    borrow_as-Adds :
        (loan_type : ℤ) (refs : Option (List (Bytes × Bytes))) (a : Account) (t : Terms)
        → Adds s (pos 0) (borrow_as rate height hash tx loan_type refs a t)
    unfolding borrow_as
    borrow_as-Adds (pos zero) refs a t = borrow_secured-Adds a t
    borrow_as-Adds (pos (suc zero)) refs a t = borrow_against-Adds refs a t
    borrow_as-Adds (pos (suc (suc n))) refs a t = record { gained = λ b h. tt }
    borrow_as-Adds (negsuc n) refs a t = record { gained = λ b h. tt }

    pub handle_treasury_borrow-Adds :
        (refs : Option (List (Bytes × Bytes)))
        → Adds s (pos 0) (handle_treasury_borrow rate height hash tx refs)
    unfolding handle_treasury_borrow
    handle_treasury_borrow-Adds refs =
        if-Adds s (pos 0) (for_payment tx)
          (then-Adds s (pos 0) (get_account-Adds s treasury_address)
            λ a. then-Adds s (pos 0) (need-Adds s _) λ r. borrow_as-Adds r.0 refs a r.1)
          (fail-Adds s (pos 0))
