-- ===== src/Consensus/Treasury/Guarantees.antt =====
-- handle_treasury_guarantee of src/astreum/consensus/transaction/treasury/guarantees.py, and how the
-- loans of borrow.py claim guarantees and pay the guarantors. The account of the treasury is the one
-- that the cache holds, and its change here is no `set_account`.
use Prim.Native.Nat.{bit_and}
use lib_py.Base.{
  ℕ, ◌+◌, ◌-◌, Bool, true, false, not, ◌&&◌, ◌||◌, Option, none, some, List, [], ◌∷◌, ◌++◌,
  if◌then◌else◌, leb, ◌==◌,
}
use lib_py.Base.Int.{ℤ, pos, pos_part, ◌+ℤ◌, leb_ℤ, ltb_ℤ}
use lib_py.Base.Bytes.{Bytes, bytes_eq}
use lib_py.Consensus.Ledger.{
  Guarantee, UserRecord, Account, new_account, new_user, find, Step, pure, fail, ◌>>=◌, ◌>>◌, guard,
  need, get_account, set_account, write, DataCell, int_cell, unloaded_cell, Transaction,
  storage_address, treasury_address,
}
use lib_py.Consensus.Treasury.{to_treasury}

unfoldable pub data_nodes : List DataCell → List DataCell
data_nodes [] = []
data_nodes (unloaded_cell ∷ rest) = data_nodes rest
data_nodes (cell ∷ rest) = cell ∷ data_nodes rest

-- A change of the objects in the cache: a user's record, a balance, the totals of the block.
unfoldable pub write_user : Bytes → UserRecord → Step (Unit {0})
write_user key user = do
  treasury ← get_account treasury_address
  write treasury_address
      (record treasury { users = λ k. if bytes_eq key k then some user else treasury.users k })

unfoldable pub move : Bytes → ℤ → Step (Unit {0})
move key amount = do
  account ← get_account key
  write key (record account { balance = account.balance +ℤ amount })

-- `get_account` or `create_account`, the price, and `set_account`.
unfoldable pub pay_found : Bytes → ℕ → Option Account → Step (Unit {0})
pay_found key price none = set_account key (record new_account { balance = pos price })
pay_found key price (some a) = set_account key (record a { balance = a.balance +ℤ pos price })

unfoldable pub pay_or_create : Bytes → ℕ → Step (Unit {0})
pay_or_create key price b = pay_found key price (find key b.accounts) b

abbrev pub user_or_new : Option UserRecord → UserRecord
user_or_new none = new_user
user_or_new (some user) = user

unfoldable pub put_guarantee : Bytes → Guarantee → UserRecord → UserRecord
put_guarantee id g user = record user {
  guarantees = λ k. if bytes_eq id k then some g else user.guarantees k;
}

-- The four integers of a guarantee that are in order.
unfoldable pub is_power_of_two : ℕ → Bool
is_power_of_two n = not (n == 0) && bit_and n (n - 1) == 0

unfoldable pub guarantee_of : ℕ → List DataCell → Option Guarantee
guarantee_of height (int_cell amount ∷ int_cell duration ∷ int_cell price ∷ int_cell expiry ∷ []) =
    if leb_ℤ amount (pos 0)
      || (not (is_power_of_two (pos_part duration))
          || (ltb_ℤ price (pos 0) || leb_ℤ expiry (pos height)))
    then none
    else some (record {
      amount = pos_part amount;
      duration = pos_part duration;
      price = pos_part price;
      expiry = pos_part expiry;
      claimed_by = storage_address;
    })
guarantee_of height _ = none

unfoldable pub is_free : {A : Type 0} → Option A → Bool
is_free none = true
is_free (some a) = false

unfoldable pub post_guarantee : ℕ → Bytes → Transaction → Step (Unit {0})
post_guarantee height hash tx = do
  treasury ← get_account treasury_address
  g ← need (guarantee_of height (data_nodes tx.cells))
  let user = user_or_new (treasury.users tx.sender)
  guard (is_free (user.guarantees hash))
  write_user tx.sender (put_guarantee hash g user)

unfoldable pub handle_treasury_guarantee : ℕ → Bytes → Transaction → Step (Unit {0})
handle_treasury_guarantee height hash tx =
    if to_treasury tx then post_guarantee height hash tx else fail

-- The guarantee that a claim takes, and the records of its guarantor after it.
unfoldable pub claim_guarantee : Bytes → Bytes → ℕ → UserRecord → Option (Guarantee × UserRecord)
claim_guarantee id claimant height user = elim (user.guarantees id) [
  | none ↦ none
  | some g ↦
      let claimed = record g { claimed_by = claimant } in
      if not (bytes_eq g.claimed_by storage_address) || leb g.expiry height
      then none
      else some (claimed, put_guarantee id claimed user)
]

-- What is claimed of one guarantor, and of all of them.
pub record State : Type 0 where
  pub user : UserRecord
  pub price_total : ℕ
  pub added_guaranteed : ℕ

pub record Claimed : Type 0 where
  pub states : List (Bytes × State)
  pub entries : List (Bytes × Bytes × ℕ)
  pub covered : ℕ

unfoldable pub find_state : Bytes → List (Bytes × State) → Option State
find_state key [] = none
find_state key ((k, s) ∷ rest) =
    let other = find_state key rest in if bytes_eq k key then some s else other

unfoldable pub put_state : Bytes → State → List (Bytes × State) → List (Bytes × State)
put_state key s [] = (key, s) ∷ []
put_state key s ((k, old) ∷ rest) =
    let others = put_state key s rest in if bytes_eq k key then (k, s) ∷ rest else (k, old) ∷ others

abbrev pub first_state : Option UserRecord → Option State
first_state none = none
first_state (some user) = some (record { user = user; price_total = 0; added_guaranteed = 0 })

unfoldable pub state_of : Bytes → (Bytes → Option UserRecord) → List (Bytes × State) → Option State
state_of key users states = elim (find_state key states) [
  | some s ↦ some s
  | none ↦ first_state (users key)
]

abbrev pub add_claim : Bytes → Bytes → Guarantee → UserRecord → State → Claimed → Claimed
add_claim guarantor id g user s c = record {
  states =
      put_state guarantor
        (record {
          user = user;
          price_total = s.price_total + g.price;
          added_guaranteed = s.added_guaranteed + g.amount;
        })
        c.states;
  entries = c.entries ++ ((guarantor, id, g.amount) ∷ []);
  covered = c.covered + g.amount;
}

module _ (users : Bytes → Option UserRecord) (height : ℕ) (hash : Bytes) (duration : ℕ) where
  unfoldable pub claim_refs : List (Bytes × Bytes) → Claimed → Step Claimed
  claim_refs [] c = pure c
  claim_refs ((guarantor, id) ∷ rest) c = do
    guard (not (bytes_eq guarantor treasury_address))
    s ← need (state_of guarantor users c.states)
    claim ← need (claim_guarantee id hash height s.user)
    guard (claim.0.duration == duration)
    claim_refs rest (add_claim guarantor id claim.0 claim.1 s c)

unfoldable pub is_listed : Bytes → Bytes → List (Bytes × Bytes) → Bool
is_listed guarantor id [] = false
is_listed guarantor id ((g, i) ∷ rest) =
    let other = is_listed guarantor id rest in (bytes_eq g guarantor && bytes_eq i id) || other

-- `len(set(guarantee_refs)) == len(guarantee_refs)`.
unfoldable pub are_distinct : List (Bytes × Bytes) → Bool
are_distinct [] = true
are_distinct ((g, i) ∷ rest) = let others = are_distinct rest in not (is_listed g i rest) && others

unfoldable pub within_interest : List (Bytes × State) → Bool
within_interest [] = true
within_interest ((g, s) ∷ rest) =
    let others = within_interest rest in
    leb_ℤ (s.user.guaranteed +ℤ pos s.added_guaranteed) s.user.total_interest_paid && others

unfoldable pub total_price : List (Bytes × State) → ℕ
total_price [] = 0
total_price ((g, s) ∷ rest) = s.price_total + total_price rest

unfoldable pub pay_guarantors : List (Bytes × State) → Step (Unit {0})
pay_guarantors [] = pure tt
pay_guarantors ((key, s) ∷ rest) = do
  pay_or_create key s.price_total
  write_user key (record s.user { guaranteed = s.user.guaranteed +ℤ pos s.added_guaranteed })
  pay_guarantors rest
