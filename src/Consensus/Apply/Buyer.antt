-- ===== src/Consensus/Apply/Buyer.antt =====
-- Who pays when a loan is bought.
use lib_py.Base.{
  ℕ, ◌-◌, ◌≡◌, refl, subst, ◌∙◌, Bool, true, false, Option, none, some, if◌then◌else◌, ◌==◌, arith,
  Bool-cases, inl, inr,
}
use lib_py.Base.Int.{ℤ, pos, ◌+ℤ◌, ◌-ℤ◌, leb_ℤ, int_laws}
use lib_py.Base.Bytes.{Bytes, bytes_eq, bytes_eq→eq}
use lib_py.Consensus.Ledger.{
  Loan, UserRecord, Account, Block, Outcome, done, failed, aborted, Step, Transaction, pure, next,
  ◌>>=◌, guard, need, find, get_account, set_account, pay, put_user, treasury_address,
}
use lib_py.Consensus.Ledger.Totals.{find-put_self, find-put_other}
use lib_py.Consensus.Codes.{treasury_buy}
use lib_py.Consensus.Apply.Codes.{initial_amount}
use lib_py.Consensus.Treasury.{take}
use lib_py.Consensus.Treasury.Trade.{set_owner, buy_at}

-- The balance of an account, 0 where there is none.
abbrev pub balance_of : Option Account → ℤ
balance_of none = pos 0
balance_of (some a) = a.balance

abbrev pub balance_at : Bytes → Block → ℤ
balance_at key b = balance_of (find key b.accounts)

-- A result after which the balance of the key has grown by x.
abbrev pub Grown : {A : Type 0} → Bytes → ℤ → Block → Outcome A × Block → Type 0
Grown key x b (done a, b') = balance_at key b' ≡ balance_at key b +ℤ x
Grown key x b (failed, b') = Unit
Grown key x b (aborted, b') = Unit

record Grows {A : Type 0} (key : Bytes) (x : ℤ) (m : Step A) : Type 0 where
  pub grown : (b : Block) → Grown key x b (m b)

next-Grown :
    {A B : Type 0} (key : Bytes) (x y : ℤ) (b : Block) (f : A → Step B) (r : Outcome A × Block)
    → Grown key x b r
    → ((a : A) → Grows key y (f a))
    → Grown key (x +ℤ y) b (next f r)
next-Grown key x y b f (failed, b') g h = tt
next-Grown key x y b f (aborted, b') g h = tt
next-Grown {A} {B} key x y b f (done a, b') g h = after (f a b') ((h a).grown b')
  where
    after : (r : Outcome B × Block) → Grown key y b' r → Grown key (x +ℤ y) b r
    after (done c, b'') k = rw (k, g) (omega int_laws)
    after (failed, b'') k = tt
    after (aborted, b'') k = tt

>>=-Grows :
    {A B : Type 0} (key : Bytes) (x y : ℤ) {m : Step A} {f : A → Step B}
    → Grows key x m
    → ((a : A) → Grows key y (f a))
    → Grows key (x +ℤ y) (m >>= f)
>>=-Grows key x y {m} {f} g h = record { grown = λ b. next-Grown key x y b f (m b) (g.grown b) h }

pure-Grows : {A : Type 0} (key : Bytes) (a : A) → Grows key (pos 0) (pure a)
pure-Grows key a = record { grown = λ b. omega int_laws }

guard-Grows : (key : Bytes) (c : Bool) → Grows key (pos 0) (guard c)
unfolding guard
guard-Grows key true = pure-Grows key tt
guard-Grows key false = record { grown = λ b. tt }

-- What a change of the account at `other` does to the balance at `key`.
abbrev share : Bytes → Bytes → ℤ → ℤ
share key other x = if bytes_eq other key then x else pos 0

set_account-Grown :
    (key other : Bytes) (x : ℤ) (a new : Account) (b : Block)
    → find other b.accounts ≡ some a
    → new.balance ≡ a.balance +ℤ x
    → Grown key (share key other x) b (set_account other new b)
unfolding set_account
set_account-Grown key other x a new b e h = elim (Bool-cases (bytes_eq other key)) [
  | inl same ↦
      let eq : other ≡ key = bytes_eq→eq other key same in
      rw same (rw (← eq) (rw (find-put_self other new b.accounts, e) h))
  | inr differ ↦ rw (differ, find-put_other other key new b.accounts differ) (omega int_laws)
]

pay-Grows : (key other : Bytes) (x : ℤ) → Grows key (share key other x) (pay other x)
unfolding pay get_account need
pay-Grows key other x = record { grown = λ b. found b (find other b.accounts) refl }
  where
    found :
        (b : Block) (o : Option Account)
        → find other b.accounts ≡ o
        → Grown key
            (share key other x)
            b
            (next (λ a. set_account other (record a { balance = a.balance +ℤ x })) (need o b))
    found b none e = tt
    found b (some a) e = set_account-Grown key other x a _ b e refl

put_user-Grows : (key user : Bytes) (u : UserRecord) → Grows key (pos 0) (put_user user u)
unfolding put_user get_account need
put_user-Grows key user u = record { grown = λ b. found b (find treasury_address b.accounts) refl }
  where
    nothing : share key treasury_address (pos 0) ≡ pos 0
    nothing = ground arith

    found :
        (b : Block) (o : Option Account)
        → find treasury_address b.accounts ≡ o
        → Grown key (pos 0) b (
            next
              (λ a.
                set_account treasury_address
                  (record a { users = λ k. if bytes_eq user k then some u else a.users k }))
              (need o b))
    found b none e = tt
    found b (some a) e = rw nothing at (
        set_account-Grown key treasury_address (pos 0) a
          (record a { users = λ k. if bytes_eq user k then some u else a.users k }) b e
          (omega int_laws))

take-Grows :
    (key other : Bytes) (n : ℕ) → Grows key (share key other (pos 0 -ℤ pos n)) (take other n)
unfolding take get_account need guard
take-Grows key other n = record { grown = λ b. found b (find other b.accounts) refl }
  where
    found :
        (b : Block) (o : Option Account)
        → find other b.accounts ≡ o
        → Grown key (share key other (pos 0 -ℤ pos n)) b (
            next
              (λ a. guard (leb_ℤ (pos n) a.balance) >>= λ _.
                set_account other (record a { balance = a.balance -ℤ pos n }))
              (need o b))
    found b none e = tt
    found b (some a) e = elim (Bool-cases (leb_ℤ (pos n) a.balance)) [
      | inl covered ↦ rw covered (
          set_account-Grown key other (pos 0 -ℤ pos n) a (record a { balance = a.balance -ℤ pos n })
            b e (omega int_laws))
      | inr short ↦ rw short tt
    ]

refund-Grows :
    (key sender : Bytes) (amount price : ℕ)
    → Grows key
        (share key sender (pos (amount - price)))
        (if amount == price then pure tt else pay sender (pos (amount - price)))
refund-Grows key sender amount price = elim (Bool-cases (amount == price)) [
  | inl e ↦
      let zero_left : share key sender (pos (amount - price)) ≡ pos 0 = ground arith in
      rw (e, zero_left) (pure-Grows key tt)
  | inr e ↦ rw e (pay-Grows key sender (pos (amount - price)))
]

abbrev gain : Bytes → Transaction → ℕ → ℕ → Loan → ℤ
gain key tx amount price loan =
    pos 0
    +ℤ (pos 0
        +ℤ (share key loan.owner (pos 0 -ℤ pos price)
            +ℤ (share key tx.sender (pos (amount - price)) +ℤ pos 0)))

buy_at-Grows :
    (key : Bytes) (tx : Transaction) (amount price : ℕ) (borrower id : Bytes) (user : UserRecord)
    (loan : Loan)
    → Grows key (gain key tx amount price loan) (buy_at tx amount price borrower id user loan)
unfolding buy_at set_owner
buy_at-Grows key tx amount price borrower id user loan =
    >>=-Grows key (pos 0) _ (guard-Grows key _) λ _.
      >>=-Grows key (pos 0) _ (guard-Grows key _) λ _.
        >>=-Grows key _ _ (take-Grows key loan.owner price) λ _.
          >>=-Grows key _ (pos 0) (refund-Grows key tx.sender amount price)
            λ _. put_user-Grows key borrower _

regrouped : (a x y : ℤ) → a +ℤ (pos 0 +ℤ (pos 0 +ℤ (x +ℤ (y +ℤ pos 0)))) ≡ a +ℤ x +ℤ y
regrouped a x y = omega int_laws

-- When a loan is bought, the price is taken from the owner who sells it, and the buyer, who is charged
-- nothing for the code TREASURY_BUY, is paid what the offer exceeds the price by; every other balance
-- stays.
pub buy_at-balances :
    (tx : Transaction) (amount price : ℕ) (borrower id : Bytes) (user : UserRecord) (loan : Loan)
    (before after : Block) (key : Bytes)
    → buy_at tx amount price borrower id user loan before ≡ (done tt, after)
    → (balance_at key after
        ≡ balance_at key before
          +ℤ (if bytes_eq loan.owner key then pos 0 -ℤ pos price else pos 0)
          +ℤ (if bytes_eq tx.sender key then pos (amount - price) else pos 0))
      × (initial_amount treasury_buy tx.amount ≡ pos 0)
unfolding initial_amount
buy_at-balances tx amount price borrower id user loan before after key e = (
  subst (λ r. Grown key (gain key tx amount price loan) before r) e
        ((buy_at-Grows key tx amount price borrower id user loan).grown before)
      ∙ regrouped _ _ _,
  refl,
)
