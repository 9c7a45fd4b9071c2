-- ===== src/Consensus/Ledger.antt =====
-- The state that a transaction changes, and the handlers' steps on it: the cache of
-- src/astreum/consensus/models/accounts.py over the trie of accounts, the account of
-- consensus/account/model.py, and the counters of a block. An account object is shared with the
-- cache, so a change of it is a change of the entry at its address. The data trie of the treasury is
-- the map of its user records, a user's loans trie the map of his loans; the blocks and hashes that
-- name tries and cells are left out.
pub mod Totals
pub mod Steps
use lib_py.Base.{
  ℕ, zero, suc, ◌≡◌, refl, Bool, true, false, not, Option, none, some, List, [], ◌∷◌, if◌then◌else◌,
  length, ◌==◌,
}
use lib_py.Base.Int.{ℤ, pos, ◌+ℤ◌}
use lib_py.Base.Bytes.{Bytes, bytes_eq}
use lib_py.Consensus.Loan.{TreasuryLoanRecord}

abbrev pub storage_address : Bytes
storage_address =
    0 ∷ 0 ∷ 0 ∷ 0 ∷ 0 ∷ 0 ∷ 0 ∷ 0 ∷ 0 ∷ 0 ∷ 0 ∷ 0 ∷ 0 ∷ 0 ∷ 0 ∷ 0 ∷ 0 ∷ 0 ∷ 0 ∷ 0 ∷ 0 ∷ 0 ∷ 0 ∷ 0
    ∷ 0 ∷ 0 ∷ 0 ∷ 0 ∷ 0 ∷ 0 ∷ 0 ∷ 0 ∷ []

abbrev pub treasury_address : Bytes
treasury_address =
    255 ∷ 255 ∷ 255 ∷ 255 ∷ 255 ∷ 255 ∷ 255 ∷ 255 ∷ 255 ∷ 255 ∷ 255 ∷ 255 ∷ 255 ∷ 255 ∷ 255 ∷ 255
    ∷ 255 ∷ 255 ∷ 255 ∷ 255 ∷ 255 ∷ 255 ∷ 255 ∷ 255 ∷ 255 ∷ 255 ∷ 255 ∷ 255 ∷ 255 ∷ 255 ∷ 255 ∷ 255
    ∷ []

-- A loan record: its schedule, and who is paid. A claimed guarantee is an address, a transaction
-- hash and an amount.
pub record Loan : Type 0 where
  pub schedule : TreasuryLoanRecord
  pub unsecured : Bool
  pub claimed_guarantees : List (Bytes × Bytes × ℕ)
  pub missed_count : ℕ
  pub owner : Bytes

-- A guarantee that a user has posted. It is available while `claimed_by` is 32 zero bytes.
pub record Guarantee : Type 0 where
  pub amount : ℕ
  pub duration : ℕ
  pub price : ℕ
  pub expiry : ℕ
  pub claimed_by : Bytes

pub record UserRecord : Type 0 where
  pub balance : ℤ
  pub loans : List (Bytes × Loan)
  pub guarantees : Bytes → Option Guarantee
  pub total_interest_paid : ℤ
  pub loaned : ℤ
  pub defaulted : ℤ
  pub guaranteed : ℤ

pub record Account : Type 0 where
  pub balance : ℤ
  pub counter : ℤ
  pub code_hash : Bytes
  pub users : Bytes → Option UserRecord

-- `create_account`, and the record of a user who has none.
abbrev pub new_account : Account
new_account = record {
  balance = pos 0;
  counter = pos 0;
  code_hash = storage_address;
  users = λ k. none;
}

abbrev pub new_user : UserRecord
new_user = record {
  balance = pos 0;
  loans = [];
  guarantees = λ k. none;
  total_interest_paid = pos 0;
  loaned = pos 0;
  defaulted = pos 0;
  guaranteed = pos 0;
}

abbrev pub Ledger : Type 0
Ledger = List (Bytes × Account)

unfoldable pub find : Bytes → Ledger → Option Account
find key [] = none
find key ((k, a) ∷ rest) = let other = find key rest in if bytes_eq k key then some a else other

-- The entry of the key, or a new one.
unfoldable pub put : Bytes → Account → Ledger → Ledger
put key a [] = (key, a) ∷ []
put key a ((k, old) ∷ rest) =
    let others = put key a rest in if bytes_eq k key then (k, a) ∷ rest else (k, old) ∷ others

-- The sum of the balances.
unfoldable pub total : Ledger → ℤ
total [] = pos 0
total ((k, a) ∷ rest) = a.balance +ℤ total rest

-- What `Block.snapshot` saves, `pending_exprs` aside. `involved` holds the addresses that
-- set_account was called with.
pub record Block : Type 0 where
  pub accounts : Ledger
  pub involved : List Bytes
  pub global_loaned : ℤ
  pub global_defaulted : ℤ
  pub global_loan_count : ℤ
  pub storage_votes : ℤ
  pub storage_claim_count : ℤ

-- How a handler ends: a result, STATUS_FAILED, or neither, by an exception or in a loop without end.
-- What it changed before stays changed.
pub data Outcome (A : Type 0) : Type 0 where
  done : A → Outcome A
  failed aborted : Outcome A

abbrev pub Step : Type 0 → Type 0
Step A = Block → Outcome A × Block

abbrev pub pure : {A : Type 0} → A → Step A
pure a b = (done a, b)

abbrev pub abort : {A : Type 0} → Step A
abort b = (aborted, b)

abbrev pub fail : {A : Type 0} → Step A
fail b = (failed, b)

abbrev pub next : {A B : Type 0} → (A → Step B) → Outcome A × Block → Outcome B × Block
next f (done a, b) = f a b
next f (failed, b) = (failed, b)
next f (aborted, b) = (aborted, b)

infixl 5 ◌>>=◌ ◌>>◌
abbrev pub ◌>>=◌ : {A B : Type 0} → Step A → (A → Step B) → Step B
◌>>=◌ m f b = next f (m b)

abbrev pub ◌>>◌ : {A B : Type 0} → Step A → Step B → Step B
m >> k = m >>= λ _. k

unfoldable pub guard : Bool → Step (Unit {0})
guard true = pure tt
guard false = fail

unfoldable pub need : {A : Type 0} → Option A → Step A
need none = fail
need (some a) = pure a

-- `get_account`, for an account that must be there.
unfoldable pub get_account : Bytes → Step Account
get_account key b = need (find key b.accounts) b

-- The set of the addresses.
unfoldable pub add_address : Bytes → List Bytes → List Bytes
add_address key [] = key ∷ []
add_address key (k ∷ rest) =
    let others = add_address key rest in if bytes_eq k key then k ∷ rest else k ∷ others

-- `set_account`.
unfoldable pub set_account : Bytes → Account → Step (Unit {0})
set_account key a b =
    (done tt, record b { accounts = put key a b.accounts; involved = add_address key b.involved })

-- A change of the object that the cache holds, without `set_account`.
unfoldable pub write : Bytes → Account → Step (Unit {0})
write key a b = (done tt, record b { accounts = put key a b.accounts })

-- `account.balance += amount` and `set_account`, for an account that must be there.
unfoldable pub pay : Bytes → ℤ → Step (Unit {0})
pay key amount = do
  account ← get_account key
  set_account key (record account { balance = account.balance +ℤ amount })

-- `put_in_radix_tree` on the data of the treasury's account.
unfoldable pub put_user : Bytes → UserRecord → Step (Unit {0})
put_user key user = do
  treasury ← get_account treasury_address
  set_account treasury_address
      (record treasury { users = λ k. if bytes_eq key k then some user else treasury.users k })

unfoldable pub add_default : ℤ → Step (Unit {0})
add_default amount b = (done tt, record b { global_defaulted = b.global_defaulted +ℤ amount })

-- The data of a transaction: the elements of the list, a link by the hash of its head. An element that
-- is known by its hash alone is not loaded.
pub data DataCell : Type 0 where
  bytes_cell : Bytes → DataCell
  int_cell : ℤ → DataCell
  link_cell : Option Bytes → DataCell
  unloaded_cell other_cell : DataCell

pub record Transaction : Type 0 where
  pub chain_id : ℤ
  pub amount : ℤ
  pub counter : ℤ
  pub cost_limit : ℤ
  pub cells : List DataCell
  pub recipient : Bytes
  pub sender : Bytes

-- The 32 bytes at the head of the data, which name a loan.
unfoldable pub loan_transaction_id : Transaction → Option Bytes
loan_transaction_id tx = elim tx.cells [
  | [] ↦ none
  | cell ∷ rest ↦ elim cell [
    | bytes_cell id ↦ if length id == 32 then some id else none
    | link_cell h ↦ none
    | int_cell n ↦ none
    | unloaded_cell ↦ none
    | other_cell ↦ none
  ]
]
