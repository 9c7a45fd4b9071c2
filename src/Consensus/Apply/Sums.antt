-- ===== src/Consensus/Apply/Sums.antt =====
-- The sum of the balances through the end of a transaction.
use lib_py.Base.{
  ◌≡◌, refl, sym, ap, ◌∙◌, Bool, true, false, Option, none, some, if◌then◌else◌, Bool-cases,
  Option-cases, inl, inr,
}
use lib_py.Base.Int.{ℤ, pos, pos_part, neg_part, ◌+ℤ◌, ◌-ℤ◌, int_laws}
use lib_py.Base.Bytes.{Bytes, bytes_eq, bytes_eq→eq}
use lib_py.Consensus.Fees.{FeeSettlement, settle_fees}
use lib_py.Consensus.Fees
use lib_py.Consensus.Fees.Settlement.{settle_fees-moves}
use lib_py.Consensus.Ledger.{
  Account, Ledger, find, put, total, Block, Transaction, set_account, storage_address,
}
use lib_py.Consensus.Ledger.Totals.{
  total-put, total-put_new, find-put_self, find-put_other, counter_at, counter_of-put,
}
use lib_py.Consensus.Ledger.Steps.{is_some, has, changed_by}
use lib_py.Consensus.Apply.{Work, Recipient, nobody, known, fresh, credit, rollback}
use lib_py.Consensus.Apply.Finish.{settle, settled_work, bump_counter, write_recipient, deduct}

-- An account that is there is changed: the sum, and who is there.
pub total-change :
    (key : Bytes) (a new : Account) (l : Ledger) (x : ℤ)
    → find key l ≡ some a
    → new.balance ≡ a.balance +ℤ x
    → total (put key new l) ≡ total l +ℤ x
total-change key a new l x e h =
    changed_by (total l) _ a.balance new.balance x (total-put key new a l e) h

-- Whether an account is there does not change.
pub is_some-put :
    (key other : Bytes) (a new : Account) (l : Ledger)
    → find other l ≡ some a
    → is_some (find key (put other new l)) ≡ is_some (find key l)
is_some-put key other a new l e = elim (Bool-cases (bytes_eq other key)) [
  | inl h ↦
      let same : other ≡ key = bytes_eq→eq other key h in
      rw (← same) (ap is_some (find-put_self other new l) ∙ sym (ap is_some e))
  | inr h ↦ rw (find-put_other other key new l h) refl
]

-- A step that adds x to the sum and keeps who is there.
pub record Keeps (x : ℤ) (b b' : Block) : Type 0 where
  pub sum : total b'.accounts ≡ total b.accounts +ℤ x
  pub same : (key : Bytes) → has key b' ≡ has key b

pub credit-Keeps :
    (key : Bytes) (x : ℤ) (b : Block) (o : Option Account)
    → find key b.accounts ≡ o
    → is_some o ≡ true
    → Keeps x b (credit key x b)
unfolding credit
credit-Keeps key x b none e h = cc
credit-Keeps key x b (some a) e h =
    rw (credit, e)
      (record {
        sum = total-change key a (record a { balance = a.balance +ℤ x }) b.accounts x e refl;
        same = λ k. is_some-put k key a _ b.accounts e;
      })

pub counter_at-credit :
    (key other : Bytes) (x : ℤ) (b : Block) → counter_at key (credit other x b) ≡ counter_at key b
unfolding credit
counter_at-credit key other x b = elim (Option-cases (find other b.accounts)) [
  | inl e ↦ rw (credit, e) refl
  | inr (a, e) ↦ rw (credit, e) (counter_of-put key other a _ b.accounts e refl)
]

bump_counter-Keeps :
    (key : Bytes) (b : Block) (o : Option Account)
    → find key b.accounts ≡ o
    → Keeps (pos 0) b (bump_counter key b)
unfolding bump_counter
bump_counter-Keeps key b none e =
    rw (bump_counter, e) (record { sum = omega int_laws; same = λ k. refl })
bump_counter-Keeps key b (some a) e =
    rw (bump_counter, e)
      (record {
        sum =
            total-change key a (record a { counter = a.counter +ℤ pos 1 }) b.accounts (pos 0) e
              (omega int_laws);
        same = λ k. is_some-put k key a _ b.accounts e;
      })

pub trans-Keeps : (x y : ℤ) {a b c : Block} → Keeps x a b → Keeps y b c → Keeps (x +ℤ y) a c
trans-Keeps x y g h = record {
  sum = rw (h.sum, g.sum) (omega int_laws);
  same = λ k. h.same k ∙ g.same k;
}

-- The balance of a recipient that is not in the cache yet.
abbrev pub outside : Recipient → ℤ
outside nobody = pos 0
outside (known key) = pos 0
outside (fresh a) = a.balance

-- The recipient's account is the one of the address that it is written to, or there is none there.
abbrev pub Placed : Transaction → Block → Recipient → Type 0
Placed tx b nobody = Unit
Placed tx b (known key) = key ≡ tx.recipient
Placed tx b (fresh a) = (has tx.recipient b ≡ false) × (a.counter ≡ pos 0)

module _ (tx : Transaction) where
  total-write_recipient :
      (b : Block) (r : Recipient)
      → Placed tx b r
      → total (write_recipient tx r b).accounts ≡ total b.accounts +ℤ outside r
  unfolding write_recipient set_account
  total-write_recipient b nobody h = omega int_laws
  total-write_recipient b (known key) h = write (find key b.accounts) refl
    where
      write :
          (o : Option Account)
          → find key b.accounts ≡ o
          → total (write_recipient tx (known key) b).accounts ≡ total b.accounts +ℤ pos 0
      write none e = rw (write_recipient, e) (omega int_laws)
      write (some a) e =
          rw (write_recipient, e)
            (total-change tx.recipient a a b.accounts (pos 0) (rw h at e) (omega int_laws))
  total-write_recipient b (fresh a) h =
      total-put_new tx.recipient a b.accounts (missing (find tx.recipient b.accounts) refl)
    where
      missing :
          (o : Option Account)
          → find tx.recipient b.accounts ≡ o
          → find tx.recipient b.accounts ≡ none
      missing none e = e
      missing (some x) e = cc (h.0, ap is_some e)

  -- A piece of work whose balances sum up to those of the snapshot and the amount that is to be taken
  -- from the sender, with the snapshot's counters.
  pub record Balanced (snapshot : Block) (w : Work) : Type 0 where
    pub sum : total w.block.accounts +ℤ outside w.recipient ≡ total snapshot.accounts +ℤ w.amount
    pub there : has tx.sender w.block ≡ true
    pub placed : Placed tx w.block w.recipient
    pub counters : (k : Bytes) → counter_at k w.block ≡ counter_at k snapshot

  pub rollback-Balanced :
      (snapshot : Block) (w : Work)
      → has tx.sender snapshot ≡ true
      → Balanced snapshot (rollback snapshot w)
  unfolding rollback
  rollback-Balanced snapshot w h = record {
    sum = refl;
    there = h;
    placed = tt;
    counters = λ k. refl;
  }

  pub same-Placed :
      (b b' : Block) (r : Recipient)
      → ((key : Bytes) → has key b' ≡ has key b)
      → Placed tx b r
      → Placed tx b' r
  same-Placed b b' nobody h p = tt
  same-Placed b b' (known key) h p = p
  same-Placed b b' (fresh a) h p = (h tx.recipient ∙ p.0, p.1)

  pub counted-Keeps :
      (matched : Bool) (b : Block)
      → Keeps (pos 0) b (if matched then bump_counter tx.sender b else b)
  counted-Keeps true b = bump_counter-Keeps tx.sender b (find tx.sender b.accounts) refl
  counted-Keeps false b = record { sum = omega int_laws; same = λ k. refl }

  -- What the end takes from the sum: the fees that nobody is paid.
  deduct_sum :
      (t0 t1 t2 o a x f u v : ℤ)
      → t1 +ℤ o ≡ t0 +ℤ a
      → t2 ≡ t1 +ℤ ((pos 0 -ℤ x) +ℤ f +ℤ pos 0)
      → x ≡ u +ℤ v +ℤ f +ℤ a
      → t2 +ℤ o +ℤ u +ℤ v ≡ t0
  deduct_sum t0 t1 t2 o a x f u v e g h = rw (g, h) (omega (int_laws, ap pos_part e, ap neg_part e))

  pub total-deduct :
      (snapshot : Block) (matched : Bool) (w : Work) (s : FeeSettlement)
      → Balanced snapshot w
      → has storage_address w.block ≡ true
      → s.transfer_amount ≡ w.amount
      → total (deduct tx matched w s).accounts +ℤ s.transaction_fee +ℤ s.data_fee
        ≡ total snapshot.accounts
  unfolding deduct Fees.total
  total-deduct snapshot matched w s good stored amount =
      let taken : Keeps (pos 0 -ℤ Fees.total s) w.block
          (credit tx.sender (pos 0 -ℤ Fees.total s) w.block) =
        credit-Keeps tx.sender _ w.block (find tx.sender w.block.accounts) refl good.there in
      let paid =
        credit-Keeps storage_address s.storage_fee
          (credit tx.sender (pos 0 -ℤ Fees.total s) w.block) _ refl
          (taken.same storage_address ∙ stored) in
      let end =
        trans-Keeps _ (pos 0) (trans-Keeps _ s.storage_fee taken paid) (counted-Keeps matched _) in
      let stored_block =
        credit storage_address s.storage_fee (credit tx.sender (pos 0 -ℤ Fees.total s) w.block) in
      let counted : Block = if matched then bump_counter tx.sender stored_block else stored_block in
      ap (λ n. n +ℤ s.transaction_fee +ℤ s.data_fee)
        (total-write_recipient counted w.recipient
          (same-Placed w.block counted w.recipient end.same good.placed))
      ∙ deduct_sum (total snapshot.accounts) (total w.block.accounts) _ (outside w.recipient)
          w.amount (Fees.total s) s.storage_fee s.transaction_fee s.data_fee good.sum end.sum
          (rw amount (omega int_laws))

  -- The settlement of a balanced piece of work is one of a balanced piece of work, which moves its
  -- amount.
  pub record Settled (snapshot : Block) (r : Work × Bool × FeeSettlement) : Type 0 where
    pub balanced : Balanced snapshot r.0
    pub moves : r.2.transfer_amount ≡ r.0.amount

  kept-Balanced :
      (snapshot : Block) (ok : Bool) (w : Work)
      → has tx.sender snapshot ≡ true
      → Balanced snapshot w
      → Balanced snapshot (if ok then w else rollback snapshot w)
  kept-Balanced snapshot true w h g = g
  kept-Balanced snapshot false w h g = rollback-Balanced snapshot w h

  choice-Settled :
      (snapshot : Block) (w : Work) (ok : Bool) (fee : ℤ)
      → has tx.sender snapshot ≡ true
      → Balanced snapshot w
      → Settled snapshot (
          if (settle tx w fee).affordable
          then (w, ok, settle tx w fee)
          else (rollback snapshot w, false, settle tx (rollback snapshot w) fee))
  unfolding settle rollback
  choice-Settled snapshot w ok fee h g = elim (Bool-cases (settle tx w fee).affordable) [
    | inl a ↦ rw a (record { balanced = g; moves = settle_fees-moves _ _ _ _ _ (inl a) })
    | inr a ↦ rw a (record {
      balanced = rollback-Balanced snapshot w h;
      moves = settle_fees-moves _ _ _ _ (pos 0) (inr refl);
    })
  ]

  pub settled_work-Settled :
      (snapshot : Block) (w : Work) (charged : Bool × ℤ)
      → has tx.sender snapshot ≡ true
      → Balanced snapshot w
      → Settled snapshot (settled_work snapshot tx w charged)
  unfolding settled_work
  settled_work-Settled snapshot w (ok, fee) h g =
      choice-Settled snapshot _ _ fee h (kept-Balanced snapshot _ w h g)
