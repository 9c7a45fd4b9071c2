-- ===== src/Consensus/Apply/Apart.antt =====
-- Blocks that differ in few accounts, and the changes of one account.
use lib_py.Base.{◌≡◌, refl, ◌∙◌, false, Option-cases, inl, inr}
use lib_py.Base.Int.{ℤ}
use lib_py.Base.Bytes.{Bytes, bytes_eq}
use lib_py.Consensus.Ledger.{Account, find, put, Block}
use lib_py.Consensus.Ledger.Totals.{find-put_other}
use lib_py.Consensus.Apply.{credit}
use lib_py.Consensus.Apply.Finish.{bump_counter}

-- Blocks that differ in the accounts of two addresses at most.
pub record Apart (a b : Bytes) (before after : Block) : Type 0 where
  pub others :
      (key : Bytes)
      → bytes_eq a key ≡ false
      → bytes_eq b key ≡ false
      → find key after.accounts ≡ find key before.accounts
  pub loaned : after.global_loaned ≡ before.global_loaned
  pub defaulted : after.global_defaulted ≡ before.global_defaulted
  pub loan_count : after.global_loan_count ≡ before.global_loan_count
  pub votes : after.storage_votes ≡ before.storage_votes
  pub claims : after.storage_claim_count ≡ before.storage_claim_count

module _ (a b : Bytes) where
  pub refl-Apart : (before : Block) → Apart a b before before
  refl-Apart before = record {
    others = λ k h g. refl;
    loaned = refl;
    defaulted = refl;
    loan_count = refl;
    votes = refl;
    claims = refl;
  }

  pub trans-Apart : {x y z : Block} → Apart a b x y → Apart a b y z → Apart a b x z
  trans-Apart f g = record {
    others = λ k h i. g.others k h i ∙ f.others k h i;
    loaned = g.loaned ∙ f.loaned;
    defaulted = g.defaulted ∙ f.defaulted;
    loan_count = g.loan_count ∙ f.loan_count;
    votes = g.votes ∙ f.votes;
    claims = g.claims ∙ f.claims;
  }

  -- One account is written.
  put-Apart :
      (key : Bytes) (x : Account) (before : Block)
      → ((k : Bytes) → bytes_eq a k ≡ false → bytes_eq b k ≡ false → bytes_eq key k ≡ false)
      → Apart a b before (record before { accounts = put key x before.accounts })
  put-Apart key x before h = record {
    others = λ k f g. find-put_other key k x before.accounts (h k f g);
    loaned = refl;
    defaulted = refl;
    loan_count = refl;
    votes = refl;
    claims = refl;
  }

  pub credit-Apart :
      (key : Bytes) (x : ℤ) (before : Block)
      → ((k : Bytes) → bytes_eq a k ≡ false → bytes_eq b k ≡ false → bytes_eq key k ≡ false)
      → Apart a b before (credit key x before)
  unfolding credit
  credit-Apart key x before h = elim (Option-cases (find key before.accounts)) [
    | inl e ↦ rw (credit, e) (refl-Apart before)
    | inr (acc, e) ↦ rw (credit, e) (put-Apart key _ before h)
  ]

  pub bump_counter-Apart :
      (key : Bytes) (before : Block)
      → ((k : Bytes) → bytes_eq a k ≡ false → bytes_eq b k ≡ false → bytes_eq key k ≡ false)
      → Apart a b before (bump_counter key before)
  unfolding bump_counter
  bump_counter-Apart key before h = elim (Option-cases (find key before.accounts)) [
    | inl e ↦ rw (bump_counter, e) (refl-Apart before)
    | inr (acc, e) ↦ rw (bump_counter, e) (put-Apart key _ before h)
  ]
