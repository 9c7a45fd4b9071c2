-- ===== src/Consensus/Ledger/Totals.antt =====
-- The sum of the balances, and the entries, after a change of one account.
use lib_py.Base.{◌≡◌, refl, false, Option, none, some, [], ◌∷◌, arith, Bool-cases, inl, inr}
use lib_py.Base.Int.{ℤ, pos, ◌+ℤ◌, int_laws}
use lib_py.Base.Bytes.{Bytes, bytes_eq, bytes_eq→eq, bytes_eq_self}
use lib_py.Consensus.Ledger.{Account, Ledger, find, put, total, Block}

pub total-put :
    (key : Bytes) (a old : Account) (l : Ledger)
    → find key l ≡ some old
    → total (put key a l) +ℤ old.balance ≡ total l +ℤ a.balance
unfolding total put find
total-put key a old [] h = cc
total-put key a old ((k, x) ∷ rest) h = grind (int_laws, total-put key a old rest)

pub total-put_new :
    (key : Bytes) (a : Account) (l : Ledger)
    → find key l ≡ none
    → total (put key a l) ≡ total l +ℤ a.balance
unfolding total put find
total-put_new key a [] h = grind int_laws
total-put_new key a ((k, x) ∷ rest) h = grind (int_laws, total-put_new key a rest)

pub find-put_self : (key : Bytes) (a : Account) (l : Ledger) → find key (put key a l) ≡ some a
unfolding put find
find-put_self key a [] = rw (bytes_eq_self key) refl
find-put_self key a ((k, x) ∷ rest) = ground (arith, find-put_self key a rest)

pub find-put_other :
    (key other : Bytes) (a : Account) (l : Ledger)
    → bytes_eq key other ≡ false
    → find other (put key a l) ≡ find other l
unfolding put find
find-put_other key other a [] h = ground arith
find-put_other key other a ((k, x) ∷ rest) h = elim (Bool-cases (bytes_eq k key)) [
  | inl e ↦ ground (arith, bytes_eq→eq k key e)
  | inr e ↦ ground (arith, find-put_other key other a rest h)
]

abbrev pub counter_of : Option Account → ℤ
counter_of none = pos 0
counter_of (some a) = a.counter

abbrev pub counter_at : Bytes → Block → ℤ
counter_at key b = counter_of (find key b.accounts)

-- The counters after a change that keeps them.
pub counter_of-put :
    (key other : Bytes) (a new : Account) (l : Ledger)
    → find other l ≡ some a
    → new.counter ≡ a.counter
    → counter_of (find key (put other new l)) ≡ counter_of (find key l)
counter_of-put key other a new l e h = elim (Bool-cases (bytes_eq other key)) [
  | inl same ↦
      let eq : other ≡ key = bytes_eq→eq other key same in
      rw (← eq) (rw (find-put_self other new l, e) h)
  | inr differ ↦ rw (find-put_other other key new l differ) refl
]

pub counter_of-put_new :
    (key other : Bytes) (new : Account) (l : Ledger)
    → find other l ≡ none
    → new.counter ≡ pos 0
    → counter_of (find key (put other new l)) ≡ counter_of (find key l)
counter_of-put_new key other new l e h = elim (Bool-cases (bytes_eq other key)) [
  | inl same ↦
      let eq : other ≡ key = bytes_eq→eq other key same in
      rw (← eq) (rw (find-put_self other new l, e) h)
  | inr differ ↦ rw (find-put_other other key new l differ) refl
]
