-- ===== src/Consensus/Apply/Moved.antt =====
-- The work behind a receipt that is a success, and the balances after it.
use lib_py.Base.{
  ◌≡◌, refl, ap, subst, ◌∙◌, Bool, true, false, ◌&&◌, Option, none, some, List, if◌then◌else◌,
  Bool-cases, Option-cases, inl, inr,
}
use lib_py.Base.Int.{ℤ, pos, ◌+ℤ◌}
use lib_py.Base.Bytes.{Bytes, bytes_eq, bytes_eq→eq}
use lib_py.Consensus.Fees.{FeeSettlement}
use lib_py.Consensus.Ledger.{Account, Ledger, find, put, Block, Transaction, set_account}
use lib_py.Consensus.Ledger.Totals.{find-put_self, find-put_other}
use lib_py.Consensus.Apply.{
  Work, known, Context, Applied, raised, no_answer, applied, credit, balance_in, rollback,
}
use lib_py.Consensus.Apply.Finish.{
  settle, settled_work, finish, deduct, bump_counter, write_recipient,
}
use lib_py.Consensus.Apply.Charges.{all_fees, build_receipt, covers}
use lib_py.Consensus.Apply.Failure.{chosen}
use lib_py.Consensus.Apply.Fails.{all_fees-fails}
use lib_py.Consensus.Apply.Buyer.{balance_of, balance_at}

-- The balances after a change of one account.
pub balance_at-credit :
    (key : Bytes) (x : ℤ) (b : Block) (a : Account)
    → find key b.accounts ≡ some a
    → balance_at key (credit key x b) ≡ a.balance +ℤ x
unfolding credit
balance_at-credit key x b a e = rw (credit, e, find-put_self key _ b.accounts) refl

pub find-credit :
    (key other : Bytes) (x : ℤ) (b : Block)
    → bytes_eq other key ≡ false
    → find key (credit other x b).accounts ≡ find key b.accounts
unfolding credit
find-credit key other x b h = elim (Option-cases (find other b.accounts)) [
  | inl e ↦ rw (credit, e) refl
  | inr (a, e) ↦ rw (credit, e) (find-put_other other key _ b.accounts h)
]

balance_of-put :
    (key other : Bytes) (a new : Account) (l : Ledger)
    → find other l ≡ some a
    → new.balance ≡ a.balance
    → balance_of (find key (put other new l)) ≡ balance_of (find key l)
balance_of-put key other a new l e h = elim (Bool-cases (bytes_eq other key)) [
  | inl same ↦
      let eq : other ≡ key = bytes_eq→eq other key same in
      rw (← eq) (rw (find-put_self other new l, e) h)
  | inr differ ↦ rw (find-put_other other key new l differ) refl
]

pub balance_at-bump :
    (key other : Bytes) (matched : Bool) (b : Block)
    → balance_at key (if matched then bump_counter other b else b) ≡ balance_at key b
unfolding bump_counter
balance_at-bump key other false b = refl
balance_at-bump key other true b = elim (Option-cases (find other b.accounts)) [
  | inl e ↦ rw (bump_counter, e) refl
  | inr (a, e) ↦ rw (bump_counter, e) (balance_of-put key other a _ b.accounts e refl)
]

module _ (tx : Transaction) where
  pub balance_at-write :
      (key : Bytes) (b : Block)
      → balance_at key (write_recipient tx (known tx.recipient) b) ≡ balance_at key b
  unfolding write_recipient set_account
  balance_at-write key b = elim (Option-cases (find tx.recipient b.accounts)) [
    | inl e ↦ rw (write_recipient, e) refl
    | inr (a, e) ↦ rw (write_recipient, e) (balance_of-put key tx.recipient a a b.accounts e refl)
  ]

  -- A settlement that is a success keeps the work.
  chosen-success :
      (snapshot : Block) (w : Work) (ok : Bool) (fee : ℤ) (affordable : Bool)
      → (chosen tx snapshot w ok fee affordable).1 ≡ true
      → (ok ≡ true) × (affordable ≡ true)
  chosen-success snapshot w ok fee true h = (h, refl)
  chosen-success snapshot w ok fee false h = cc

  kept :
      (snapshot : Block) (w : Work) (fee : ℤ) (ok : Bool)
      → ok ≡ true
      → (settle tx (if ok then w else rollback snapshot w) fee).affordable ≡ true
      → (chosen tx snapshot
            (if ok then w else rollback snapshot w)
            ok
            fee
            (settle tx (if ok then w else rollback snapshot w) fee).affordable
          ≡ (w, true, settle tx w fee))
        × ((settle tx w fee).affordable ≡ true)
  kept snapshot w fee true e a = (ap (λ b. chosen tx snapshot w true fee b) a, a)
  kept snapshot w fee false e a = cc

  both : (a b : Bool) → a && b ≡ true → a ≡ true
  both true b h = refl
  both false b h = cc

  settled_work-success :
      (snapshot : Block) (w : Work) (charged : Bool × ℤ)
      → (settled_work snapshot tx w charged).1 ≡ true
      → (charged.0 ≡ true)
        × ((settle tx w charged.1).affordable ≡ true)
        × (settled_work snapshot tx w charged ≡ (w, true, settle tx w charged.1))
  unfolding settled_work
  settled_work-success snapshot w (ok, fee) h =
      let ok' : Bool =
        ok
        && covers (balance_in tx.sender w.block)
            (pos 1 +ℤ w.report.evaluation +ℤ w.amount +ℤ fee) in
      let w' : Work = if ok' then w else rollback snapshot w in
      let (e, a) = chosen-success snapshot w' ok' fee (settle tx w' fee).affordable h in
      let (same, paid) = kept snapshot w fee ok' e a in (both ok _ e, paid, same)

  -- What is applied with success comes from work that is a success.
  abbrev pub Moved : Block → Bool → Work → Applied → Type 0
  Moved snapshot matched w raised = Unit
  Moved snapshot matched w no_answer = Unit
  Moved snapshot matched w (applied after r seen) =
      r.success ≡ true
      → (fee : ℤ) × (w.success ≡ true)
        × ((settle tx w fee).affordable ≡ true)
        × (after ≡ deduct tx matched w (settle tx w fee))
        × (r.transaction_fee ≡ (settle tx w fee).transaction_fee)
        × (r.data_fee ≡ (settle tx w fee).data_fee)
        × (r.storage_fee ≡ (settle tx w fee).storage_fee)

  success-kept :
      (snapshot : Block) (w : Work)
      → (if w.success then w else rollback snapshot w).success ≡ true
      → (w.success ≡ true) × ((if w.success then w else rollback snapshot w) ≡ w)
  unfolding rollback
  success-kept snapshot w h = split w.success refl
    where
      split :
          (b : Bool)
          → w.success ≡ b
          → (w.success ≡ true) × ((if w.success then w else rollback snapshot w) ≡ w)
      split true e = (e, ap (λ b. if b then w else rollback snapshot w) e)
      split false e = cc (e, ap (λ b. (if b then w else rollback snapshot w).success) e)

  ended-Moved :
      (hash : Bytes) (snapshot : Block) (matched : Bool) (seen : List Bytes) (w : Work)
      (charged : Bool × ℤ) (r : Work × Bool × FeeSettlement) (o : Option Account)
      → (r.1 ≡ true
          → (w.success ≡ true)
            × ((settle tx w charged.1).affordable ≡ true)
            × (r ≡ (w, true, settle tx w charged.1)))
      → Moved snapshot matched w (elim o [
        | none ↦ raised
        | some a ↦
            applied
              (deduct tx matched r.0 r.2)
              (build_receipt hash r.0 r.1 r.2.transaction_fee r.2.data_fee r.2.storage_fee)
              seen
      ])
  unfolding build_receipt
  ended-Moved hash snapshot matched seen w charged r none h = tt
  ended-Moved hash snapshot matched seen w charged r (some a) h = λ e.
      let (ok, paid, same) = h e in
      (
        charged.1,
        ok,
        paid,
        ap (λ x. deduct tx matched x.0 x.2) same,
        ap (λ x. x.2.transaction_fee) same,
        ap (λ x. x.2.data_fee) same,
        ap (λ x. x.2.storage_fee) same,
      )

  pub finish-Moved :
      (c : Context) (hash : Bytes) (snapshot : Block) (matched : Bool) (seen : List Bytes)
      (w : Work)
      → Moved snapshot matched w (finish c snapshot hash tx matched seen w)
  unfolding finish
  finish-Moved c hash snapshot matched seen w =
      let w1 : Work = if w.success then w else rollback snapshot w in
      let charged = all_fees c hash tx seen w1 (balance_in tx.sender w1.block) in
      ended-Moved hash snapshot matched _ w charged (settled_work snapshot tx w1 charged) _ (λ e.
        let (ok, paid, same) = settled_work-success snapshot w1 charged e in
        let first : w1.success ≡ true = succeeds w1 ok in
        let (good, kept_work) = success-kept snapshot w first in
        (
          good,
          subst (λ x. (settle tx x charged.1).affordable ≡ true) kept_work paid,
          same
              ∙ ap
                  (λ (x : Work).
                    let y : Work × Bool × FeeSettlement = (x, true, settle tx x charged.1) in y)
                  kept_work,
        ))
    where
      succeeds :
          (w1 : Work)
          → (all_fees c hash tx seen w1 (balance_in tx.sender w1.block)).0 ≡ true
          → w1.success ≡ true
      succeeds w1 h = elim (Bool-cases w1.success) [
        | inl e ↦ e
        | inr e ↦ cc (h, all_fees-fails c hash tx seen w1 (balance_in tx.sender w1.block) e)
      ]
