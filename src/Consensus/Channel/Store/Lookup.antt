-- ===== src/Consensus/Channel/Store/Lookup.antt =====
-- What the accounts hold after a write of a channel and after a credit.
use lib_py.Base.{
  ◌≡◌, ◌≢◌, refl, none, some, Bool-cases, Option, ap, sym, ◌∙◌, Option-cases, inl, inr,
}
use lib_py.Base.Int.{ℤ, ◌+ℤ◌}
use lib_py.Base.Bytes.{Bytes, bytes_eq, Bytes-cases, bytes_eq→eq, bytes_eq_self}
use lib_py.Storage.Radix.{RadixTree}
use lib_py.Consensus.Channel.Store.{
  Channel, Account, Accounts, Node, set_account, balance_in, channels_in, balance_of, channels_of,
  put_channel, put_head, credit,
}

pub some-inj : {A : Type 0} {a b : A} → some a ≡ some b → a ≡ b
some-inj e = cc

-- An account with a tree of channels has a balance.
pub channels_in-balance :
    (r : Option Account) (tree : RadixTree)
    → channels_in r ≡ some tree
    → (b : ℤ) × (balance_in r ≡ some b)
channels_in-balance none tree h = cc
channels_in-balance (some account) tree h = (account.balance, refl)

set_account-here :
    (o : Bytes) (account : Account) (accounts : Accounts)
    → set_account o account accounts o ≡ some account
unfolding set_account
set_account-here o account accounts = rw (set_account, bytes_eq_self o) refl

set_account-other :
    (o a : Bytes) (account : Account) (accounts : Accounts)
    → o ≢ a
    → set_account o account accounts a ≡ accounts a
unfolding set_account
set_account-other o a account accounts apart = elim (Bool-cases (bytes_eq o a)) [
  | inl same ↦ absurd (apart (bytes_eq→eq o a same))
  | inr differ ↦ rw (set_account, differ) refl
]

-- What reads an account alike before and after reads the same of every account.
pub read-set_account :
    {A : Type 0} (read : Option Account → A) (o a : Bytes) (account : Account) (accounts : Accounts)
    → read (some account) ≡ read (accounts o)
    → read (set_account o account accounts a) ≡ read (accounts a)
read-set_account read o a account accounts alike = elim (Bytes-cases o a) [
  | inl same ↦ rw (← same) (ap read (set_account-here o account accounts) ∙ alike)
  | inr apart ↦ ap read (set_account-other o a account accounts apart)
]

pub channels_of-credit :
    (accounts : Accounts) (a o : Bytes) (amount : ℤ)
    → channels_of (credit a amount accounts) o ≡ channels_of accounts o
unfolding credit
channels_of-credit accounts a o amount = elim (Option-cases (accounts a)) [
  | inl missing ↦ rw (credit, missing) refl
  | inr (account, there) ↦
      rw (credit, there) (read-set_account channels_in a o _ accounts (ap channels_in (sym there)))
]

pub balance_of-credit :
    (accounts : Accounts) (a : Bytes) (amount b : ℤ)
    → balance_of accounts a ≡ some b
    → balance_of (credit a amount accounts) a ≡ some (b +ℤ amount)
unfolding credit
balance_of-credit accounts a amount b h = elim (Option-cases (accounts a)) [
  | inl missing ↦ cc (rw missing at h)
  | inr (account, there) ↦
      let same : account.balance ≡ b = some-inj (rw there at h) in
      rw (credit, there)
        (ap balance_in (set_account-here a _ accounts) ∙ ap (λ x. some (x +ℤ amount)) same)
]

pub balance_of-credit_other :
    (accounts : Accounts) (a a' : Bytes) (amount : ℤ)
    → a ≢ a'
    → balance_of (credit a amount accounts) a' ≡ balance_of accounts a'
unfolding credit
balance_of-credit_other accounts a a' amount apart = elim (Option-cases (accounts a)) [
  | inl missing ↦ rw (credit, missing) refl
  | inr (account, there) ↦
      rw (credit, there) (ap balance_in (set_account-other a a' _ accounts apart))
]

-- What a put of a channel that does not raise does to the accounts.
pub record Puts (N : Node) (owner counterparty : Bytes) (c : Channel) (before after : Accounts)
    : Type 0 where
  pub tree : RadixTree
  pub new_tree : RadixTree
  pub tree_before : channels_of before owner ≡ some tree
  pub written : put_head N tree counterparty c ≡ some new_tree
  pub tree_after : channels_of after owner ≡ some new_tree
  pub others : (o : Bytes) → owner ≢ o → channels_of after o ≡ channels_of before o
  pub balances : (a : Bytes) → balance_of after a ≡ balance_of before a

pub put_channel-Puts :
    (N : Node) (owner counterparty : Bytes) (c : Channel) (before after : Accounts)
    → put_channel N owner counterparty c before ≡ some after
    → Puts N owner counterparty c before after
unfolding put_channel
put_channel-Puts N owner counterparty c before after e = elim (Option-cases (before owner)) [
  | inl missing ↦ cc (rw (put_channel, missing) at e)
  | inr (account, there) ↦ elim (Option-cases (put_head N account.channels counterparty c)) [
    | inl raised ↦ cc (rw (put_channel, there, raised) at e)
    | inr (tree, put) ↦
        let same : set_account owner (record account { channels = tree }) before ≡ after =
          some-inj (rw (put_channel, there, put) at e) in
        rw (← same) (record {
          tree = account.channels;
          new_tree = tree;
          tree_before = ap channels_in there;
          written = put;
          tree_after =
              ap channels_in (set_account-here owner (record account { channels = tree }) before);
          others = λ o apart.
              ap channels_in
                (set_account-other owner o (record account { channels = tree }) before apart);
          balances = λ a.
              read-set_account balance_in owner a (record account { channels = tree }) before
                (ap balance_in (sym there));
        })
  ]
]
