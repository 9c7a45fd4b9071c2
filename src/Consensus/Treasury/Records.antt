-- ===== src/Consensus/Treasury/Records.antt =====
-- A record in the data of the treasury, and the steps that change it.
use lib_py.Base.{ℕ, ◌≡◌, refl, Option, none, some, if◌then◌else◌, Bool-cases, inl, inr}
use lib_py.Base.Int.{ℤ, pos, ◌+ℤ◌, ◌-ℤ◌}
use lib_py.Base.Bytes.{Bytes, bytes_eq, bytes_eq→eq, bytes_eq_self}
use lib_py.Consensus.Ledger.{
  UserRecord, Account, find, Block, Outcome, done, failed, aborted, Step, next, ◌>>=◌, need,
  get_account, write, treasury_address,
}
use lib_py.Consensus.Ledger.Totals.{find-put_self, find-put_other}
use lib_py.Consensus.Treasury.Borrow.{add_loaned, lend}
use lib_py.Consensus.Treasury.Guarantees.{write_user, move}

-- The record of a user in the data of the treasury.
abbrev record_in : Bytes → Option Account → Option UserRecord
record_in key none = none
record_in key (some t) = t.users key

abbrev pub record_of : Bytes → Block → Option UserRecord
record_of key b = record_in key (find treasury_address b.accounts)

-- A record with the guarantees of another, posted and given.
abbrev pub Same : UserRecord → Option UserRecord → Type 0
Same user none = ⊥
Same user (some new) =
    ((id : Bytes) → new.guarantees id ≡ user.guarantees id) × (new.guaranteed ≡ user.guaranteed)

-- A step after which, if it is done, the record of the key has the guarantees of the user.
abbrev pub Ended : {A : Type 0} → Bytes → UserRecord → Outcome A × Block → Type 0
Ended key user (done a, b) = Same user (record_of key b)
Ended key user (failed, b) = Unit
Ended key user (aborted, b) = Unit

pub record Ends {A : Type 0} (key : Bytes) (user : UserRecord) (m : Step A) : Type 0 where
  pub ended : (b : Block) → Ended key user (m b)

module _ (key : Bytes) (user : UserRecord) where
  -- The last step decides.
  pub then-Ends :
      {A B : Type 0} (m : Step A) (f : A → Step B)
      → ((a : A) → Ends key user (f a))
      → Ends key user (m >>= f)
  then-Ends {A} {B} m f h = record { ended = λ b. after (m b) }
    where
      after : (r : Outcome A × Block) → Ended key user (next f r)
      after (done a, b) = (h a).ended b
      after (failed, b) = tt
      after (aborted, b) = tt

  -- A last step that leaves the records as they are.
  next-Ended :
      {A B : Type 0} (f : A → Step B) (r : Outcome A × Block)
      → Ended key user r
      → ((a : A) (b : Block) → Same user (record_of key b) → Ended key user (f a b))
      → Ended key user (next f r)
  next-Ended f (done a, b) e h = h a b e
  next-Ended f (failed, b) e h = tt
  next-Ended f (aborted, b) e h = tt

  pub need-Ends :
      {A B : Type 0} (o : Option A) (f : A → Step B)
      → ((a : A) → o ≡ some a → Ends key user (f a))
      → Ends key user (need o >>= f)
  unfolding need
  need-Ends none f h = record { ended = λ b. tt }
  need-Ends (some a) f h = record { ended = λ b. (h a refl).ended b }

  write_user-Ends : (new : UserRecord) → Same user (some new) → Ends key user (write_user key new)
  unfolding write_user get_account need write
  write_user-Ends new h = record { ended = λ b. written b (find treasury_address b.accounts) }
    where
      written :
          (b : Block) (o : Option Account)
          → Ended key user (
              next
                (λ t.
                  write treasury_address
                    (record t { users = λ k. if bytes_eq key k then some new else t.users k }))
                (need o b))
      written b none = tt
      written b (some t) =
          unfold need write in
          rw
            (find-put_self treasury_address
              (record t { users = λ k. if bytes_eq key k then some new else t.users k }) b.accounts)
            (rw (bytes_eq_self key) h)

  -- A change of a balance.
  moved-Same :
      (other : Bytes) (x : ℤ) (b : Block) (o : Option Account)
      → find other b.accounts ≡ o
      → Same user (record_of key b)
      → Ended key user (next (λ a. write other (record a { balance = a.balance +ℤ x })) (need o b))
  unfolding need write
  moved-Same other x b none e h = tt
  moved-Same other x b (some a) e h = elim (Bool-cases (bytes_eq other treasury_address)) [
    | inl same ↦
        let eq : other ≡ treasury_address = bytes_eq→eq other treasury_address same in
        let there = rw eq at e in
        rw (eq, find-put_self treasury_address (record a { balance = a.balance +ℤ x }) b.accounts)
          (rw there at h)
    | inr differ ↦
        rw
          (find-put_other other treasury_address (record a { balance = a.balance +ℤ x }) b.accounts
            differ)
          h
  ]

  move-Same :
      (other : Bytes) (x : ℤ) (b : Block)
      → Same user (record_of key b)
      → Ended key user (move other x b)
  unfolding move get_account
  move-Same other x b h = moved-Same other x b (find other b.accounts) refl h

  pub lend-Ends :
      (new : UserRecord) (paid received : ℤ)
      → Same user (some new)
      → Ends key user (lend key new paid received)
  unfolding lend
  lend-Ends new paid received h = record {
    ended = λ b. next-Ended _ (write_user key new b) ((write_user-Ends new h).ended b) λ _ b' e.
        next-Ended _ (move treasury_address (pos 0 -ℤ paid) b') (move-Same treasury_address _ b' e)
          λ _ b'' e'. move-Same key received b'' e';
  }

  pub lend_and_count-Ends :
      (new : UserRecord) (paid received : ℤ) (n : ℕ)
      → Same user (some new)
      → Ends key user (lend key new paid received >>= λ _. add_loaned n)
  unfolding add_loaned
  lend_and_count-Ends new paid received n h = record {
    ended = λ b.
        next-Ended _ (lend key new paid received b) ((lend-Ends new paid received h).ended b)
          λ _ b' e. e;
  }
