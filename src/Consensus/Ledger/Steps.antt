-- ===== src/Consensus/Ledger/Steps.antt =====
-- What a handler's step adds to the sum of the balances, and that it keeps the counters.
use lib_py.Base.{
  ◌≡◌, refl, sym, ap, ◌∙◌, Bool, true, false, Option, none, some, if◌then◌else◌, Bool-cases, inl,
  inr,
}
use lib_py.Base.Int.{ℤ, pos, pos_part, neg_part, ◌+ℤ◌, int_laws}
use lib_py.Base.Bytes.{Bytes, bytes_eq, bytes_eq→eq}
use lib_py.Consensus.Ledger.{
  Account, UserRecord, Ledger, find, put, total, Block, Outcome, done, failed, aborted, Step, pure,
  fail, next, ◌>>=◌, guard, need, get_account, set_account, write, pay, put_user, add_default,
  treasury_address,
}
use lib_py.Consensus.Ledger.Totals.{
  total-put, find-put_self, find-put_other, counter_at, counter_of-put,
}

abbrev pub is_some : {A : Type 0} → Option A → Bool
is_some none = false
is_some (some a) = true

-- Whether there is an account.
abbrev pub has : Bytes → Block → Bool
has key b = is_some (find key b.accounts)

-- A result after which the balances sum up to x more, the account of the key is still there, and all
-- counters are the same.
abbrev pub Gained : {A : Type 0} → Bytes → ℤ → Block → Outcome A × Block → Type 0
Gained key x b (done a, b') =
    (total b'.accounts ≡ total b.accounts +ℤ x)
    × (has key b' ≡ true)
    × ((k : Bytes) → counter_at k b' ≡ counter_at k b)
Gained key x b (failed, b') = Unit
Gained key x b (aborted, b') = Unit

pub record Adds {A : Type 0} (key : Bytes) (x : ℤ) (m : Step A) : Type 0 where
  pub gained : (b : Block) → has key b ≡ true → Gained key x b (m b)

pub pure-Adds : {A : Type 0} (key : Bytes) (a : A) → Adds key (pos 0) (pure a)
pure-Adds key a = record { gained = λ b h. (omega int_laws, h, λ k. refl) }

pub fail-Adds : {A : Type 0} (key : Bytes) (x : ℤ) → Adds {A = A} key x fail
fail-Adds key x = record { gained = λ b h. tt }

add_twice : (a b c x y : ℤ) → b ≡ a +ℤ x → c ≡ b +ℤ y → c ≡ a +ℤ (x +ℤ y)
add_twice a b c x y g h = rw (h, g) (omega int_laws)

pub changed_by :
    (before after old new x : ℤ)
    → after +ℤ old ≡ before +ℤ new
    → new ≡ old +ℤ x
    → after ≡ before +ℤ x
changed_by before after old new x e h =
    let sum : after +ℤ old ≡ before +ℤ (old +ℤ x) = e ∙ ap (λ n. before +ℤ n) h in
    omega (int_laws, ap pos_part sum, ap neg_part sum)

next-Gained :
    {A B : Type 0} (key : Bytes) (x y : ℤ) (b : Block) (f : A → Step B) (r : Outcome A × Block)
    → Gained key x b r
    → ((a : A) → Adds key y (f a))
    → Gained key (x +ℤ y) b (next f r)
next-Gained key x y b f (failed, b') g h = tt
next-Gained key x y b f (aborted, b') g h = tt
next-Gained {A} {B} key x y b f (done a, b') g h = after (f a b') ((h a).gained b' g.1)
  where
    after : (r : Outcome B × Block) → Gained key y b' r → Gained key (x +ℤ y) b r
    after (done c, b'') k = (
      add_twice (total b.accounts) (total b'.accounts) (total b''.accounts) x y g.0 k.0,
      k.1,
      λ n. k.2 n ∙ g.2 n,
    )
    after (failed, b'') k = tt
    after (aborted, b'') k = tt

pub >>=-Adds :
    {A B : Type 0} (key : Bytes) (x y : ℤ) {m : Step A} {f : A → Step B}
    → Adds key x m
    → ((a : A) → Adds key y (f a))
    → Adds key (x +ℤ y) (m >>= f)
>>=-Adds key x y {m} {f} g h = record {
  gained = λ b e. next-Gained key x y b f (m b) (g.gained b e) h;
}

eq-Adds : {A : Type 0} (key : Bytes) (x y : ℤ) {m : Step A} → x ≡ y → Adds key x m → Adds key y m
eq-Adds key x y e g = rw (sym e) g

-- A step that adds nothing, before and after another.
pub then-Adds :
    {A B : Type 0} (key : Bytes) (x : ℤ) {m : Step A} {f : A → Step B}
    → Adds key (pos 0) m
    → ((a : A) → Adds key x (f a))
    → Adds key x (m >>= f)
then-Adds key x g h = eq-Adds key (pos 0 +ℤ x) x (omega int_laws) (>>=-Adds key (pos 0) x g h)

pub before-Adds :
    {A B : Type 0} (key : Bytes) (x : ℤ) {m : Step A} {f : A → Step B}
    → Adds key x m
    → ((a : A) → Adds key (pos 0) (f a))
    → Adds key x (m >>= f)
before-Adds key x g h = eq-Adds key (x +ℤ pos 0) x (omega int_laws) (>>=-Adds key x (pos 0) g h)

pub if-Adds :
    {A : Type 0} (key : Bytes) (x : ℤ) (c : Bool) {m n : Step A}
    → Adds key x m
    → Adds key x n
    → Adds key x (if c then m else n)
if-Adds key x true g h = g
if-Adds key x false g h = h

pub guard-Adds : (key : Bytes) (c : Bool) → Adds key (pos 0) (guard c)
unfolding guard
guard-Adds key true = pure-Adds key tt
guard-Adds key false = fail-Adds key (pos 0)

pub need-Adds : {A : Type 0} (key : Bytes) (o : Option A) → Adds key (pos 0) (need o)
unfolding need
need-Adds key none = fail-Adds key (pos 0)
need-Adds key (some a) = pure-Adds key a

pub get_account-Adds : (key other : Bytes) → Adds key (pos 0) (get_account other)
unfolding get_account
get_account-Adds key other = record {
  gained = λ b h. (need-Adds key (find other b.accounts)).gained b h;
}

pub has-put :
    (key other : Bytes) (a : Account) (l : Ledger)
    → is_some (find key l) ≡ true
    → is_some (find key (put other a l)) ≡ true
has-put key other a l h = elim (Bool-cases (bytes_eq other key)) [
  | inl e ↦ rw (bytes_eq→eq other key e, find-put_self key a l) refl
  | inr e ↦ rw (find-put_other other key a l e) h
]

-- An account that is there, written with another balance.
module _ (key other : Bytes) (x : ℤ) (change : Account → Account)
    (changed : (a : Account) → (change a).balance ≡ a.balance +ℤ x)
    (counted : (a : Account) → (change a).counter ≡ a.counter) where
  abbrev change_account : Step (Unit {0})
  change_account = get_account other >>= λ a. set_account other (change a)

  pub set_account-Gained :
      (b : Block) (a : Account)
      → find other b.accounts ≡ some a
      → has key b ≡ true
      → Gained key x b (set_account other (change a) b)
  unfolding set_account
  set_account-Gained b a e h = (
    changed_by (total b.accounts) _ a.balance (change a).balance x
        (total-put other (change a) a b.accounts e) (changed a),
    has-put key other (change a) b.accounts h,
    λ k. counter_of-put k other a (change a) b.accounts e (counted a),
  )

  change-Gained :
      (b : Block) (o : Option Account)
      → find other b.accounts ≡ o
      → has key b ≡ true
      → Gained key x b (next (λ a. set_account other (change a)) (need o b))
  unfolding need
  change-Gained b none e h = tt
  change-Gained b (some a) e h = set_account-Gained b a e h

  write-Gained :
      (b : Block) (o : Option Account)
      → find other b.accounts ≡ o
      → has key b ≡ true
      → Gained key x b (next (λ a. write other (change a)) (need o b))
  unfolding need write set_account
  write-Gained b none e h = tt
  write-Gained b (some a) e h = set_account-Gained b a e h

  -- The same for a change of the object in the cache.
  pub write-Adds : Adds key x (get_account other >>= λ a. write other (change a))
  unfolding get_account
  write-Adds = record { gained = λ b h. write-Gained b (find other b.accounts) refl h }

  pub change-Adds : Adds key x change_account
  unfolding get_account
  change-Adds = record { gained = λ b h. change-Gained b (find other b.accounts) refl h }

pub pay-Adds : (key other : Bytes) (x : ℤ) → Adds key x (pay other x)
unfolding pay
pay-Adds key other x =
    change-Adds key other x (λ a. record a { balance = a.balance +ℤ x }) (λ a. refl) (λ a. refl)

pub put_user-Adds : (key user : Bytes) (u : UserRecord) → Adds key (pos 0) (put_user user u)
unfolding put_user
put_user-Adds key user u =
    change-Adds key treasury_address (pos 0)
      (λ a. record a { users = λ k. if bytes_eq user k then some u else a.users k })
      (λ a. omega int_laws) (λ a. refl)

pub add_default-Adds : (key : Bytes) (x : ℤ) → Adds key (pos 0) (add_default x)
unfolding add_default
add_default-Adds key x = record { gained = λ b h. (omega int_laws, h, λ k. refl) }
