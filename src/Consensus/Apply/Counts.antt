-- ===== src/Consensus/Apply/Counts.antt =====
-- The counters through the end of a transaction.
use lib_py.Base.{
  ◌≡◌, refl, ap, ◌∙◌, Bool, true, false, ◌&&◌, Option, none, some, if◌then◌else◌, Bool-cases, inl,
  inr,
}
use lib_py.Base.Int.{ℤ, pos, ◌+ℤ◌, ◌-ℤ◌, int_laws}
use lib_py.Base.Bytes.{Bytes, bytes_eq, bytes_eq→eq}
use lib_py.Consensus.Fees.{FeeSettlement}
use lib_py.Consensus.Fees
use lib_py.Consensus.Ledger.{Account, find, Block, Transaction, set_account, storage_address}
use lib_py.Consensus.Ledger.Totals.{
  find-put_self, find-put_other, counter_at, counter_of-put, counter_of-put_new,
}
use lib_py.Consensus.Ledger.Steps.{is_some, has}
use lib_py.Consensus.Apply.{Work, Recipient, nobody, known, fresh, credit}
use lib_py.Consensus.Apply.Finish.{bump_counter, write_recipient, deduct}
use lib_py.Consensus.Apply.Sums.{
  credit-Keeps, counted-Keeps, trans-Keeps, same-Placed, counter_at-credit, Placed, Balanced,
}

-- What a transaction of the sender adds to the counter of the key.
abbrev pub tick : Bool → Bytes → Bytes → ℤ
tick matched sender key = if matched && bytes_eq sender key then pos 1 else pos 0

counter_at-bump :
    (key other : Bytes) (b : Block) (o : Option Account)
    → find other b.accounts ≡ o
    → is_some o ≡ true
    → counter_at key (bump_counter other b) ≡ counter_at key b +ℤ tick true other key
unfolding bump_counter
counter_at-bump key other b none e h = cc
counter_at-bump key other b (some a) e h = elim (Bool-cases (bytes_eq other key)) [
  | inl same ↦
      let eq : other ≡ key = bytes_eq→eq other key same in
      rw (bump_counter, e, same)
        (rw (← eq)
          (rw (find-put_self other (record a { counter = a.counter +ℤ pos 1 }) b.accounts, e) refl))
  | inr differ ↦
      rw (bump_counter, e, differ)
        (rw (find-put_other other key (record a { counter = a.counter +ℤ pos 1 }) b.accounts differ)
          (omega int_laws))
]

module _ (tx : Transaction) where
  counter_at-counted :
      (key : Bytes) (matched : Bool) (b : Block)
      → has tx.sender b ≡ true
      → counter_at key (if matched then bump_counter tx.sender b else b)
        ≡ counter_at key b +ℤ tick matched tx.sender key
  counter_at-counted key true b h =
      counter_at-bump key tx.sender b (find tx.sender b.accounts) refl h
  counter_at-counted key false b h = omega int_laws

  counter_at-write_recipient :
      (key : Bytes) (b : Block) (r : Recipient)
      → Placed tx b r
      → counter_at key (write_recipient tx r b) ≡ counter_at key b
  unfolding write_recipient set_account
  counter_at-write_recipient key b nobody h = refl
  counter_at-write_recipient key b (known at) h = write (find at b.accounts) refl
    where
      write :
          (o : Option Account)
          → find at b.accounts ≡ o
          → counter_at key (write_recipient tx (known at) b) ≡ counter_at key b
      write none e = rw (write_recipient, e) refl
      write (some a) e =
          rw (write_recipient, e) (counter_of-put key tx.recipient a a b.accounts (rw h at e) refl)
  counter_at-write_recipient key b (fresh a) h =
      counter_of-put_new key tx.recipient a b.accounts (missing (find tx.recipient b.accounts) refl)
        h.1
    where
      missing :
          (o : Option Account)
          → find tx.recipient b.accounts ≡ o
          → find tx.recipient b.accounts ≡ none
      missing none e = e
      missing (some x) e = cc (h.0, ap is_some e)

  pub counter_at-deduct_work :
      (snapshot : Block) (matched : Bool) (w : Work) (s : FeeSettlement)
      → Balanced tx snapshot w
      → has storage_address w.block ≡ true
      → (key : Bytes)
      → counter_at key (deduct tx matched w s)
        ≡ counter_at key snapshot +ℤ tick matched tx.sender key
  unfolding deduct
  counter_at-deduct_work snapshot matched w s good stored key =
      let taken_block = credit tx.sender (pos 0 -ℤ Fees.total s) w.block in
      let stored_block = credit storage_address s.storage_fee taken_block in
      let counted : Block = if matched then bump_counter tx.sender stored_block else stored_block in
      let taken =
        credit-Keeps tx.sender (pos 0 -ℤ Fees.total s) w.block (find tx.sender w.block.accounts)
          refl good.there in
      let paid =
        credit-Keeps storage_address s.storage_fee taken_block _ refl
          (taken.same storage_address ∙ stored) in
      let kept = trans-Keeps _ s.storage_fee taken paid in
      let end = trans-Keeps _ (pos 0) kept (counted-Keeps tx matched stored_block) in
      counter_at-write_recipient key counted w.recipient
        (same-Placed tx w.block counted w.recipient end.same good.placed)
      ∙ counter_at-counted key matched stored_block (kept.same tx.sender ∙ good.there)
      ∙ ap (λ n. n +ℤ tick matched tx.sender key)
          (counter_at-credit key storage_address s.storage_fee taken_block
            ∙ counter_at-credit key tx.sender _ w.block
            ∙ good.counters key)
