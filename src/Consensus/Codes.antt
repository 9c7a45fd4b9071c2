-- ===== src/Consensus/Codes.antt =====
-- The transaction codes: src/astreum/consensus/transaction/code.py.
pub mod Roundtrip
mod Tests
use lib_py.Base.{ℕ, Option, none, some, List, [], ◌∷◌, ◌==◌, if◌then◌else◌}
use lib_py.Base.Bytes.{Bytes}

pub data TransactionCode : Type 0 where
  transfer : TransactionCode
  channel_update channel_withdraw channel_close : TransactionCode
  treasury_deposit treasury_borrow treasury_repay treasury_close treasury_guarantee treasury_buy
        treasury_claim :
      TransactionCode
  storage_create storage_payment storage_remove : TransactionCode
  code_account_create code_account_call : TransactionCode

-- `int(code)`.
pub int_of : TransactionCode → ℕ
int_of transfer = 0
int_of channel_update = 16
int_of channel_withdraw = 17
int_of channel_close = 18
int_of treasury_deposit = 32
int_of treasury_borrow = 33
int_of treasury_repay = 34
int_of treasury_close = 35
int_of treasury_guarantee = 36
int_of treasury_buy = 37
int_of treasury_claim = 38
int_of storage_create = 48
int_of storage_payment = 49
int_of storage_remove = 50
int_of code_account_create = 64
int_of code_account_call = 65

abbrev pub all_codes : List TransactionCode
all_codes =
    transfer ∷ channel_update ∷ channel_withdraw ∷ channel_close ∷ treasury_deposit
    ∷ treasury_borrow ∷ treasury_repay ∷ treasury_close ∷ treasury_guarantee ∷ treasury_buy
    ∷ treasury_claim ∷ storage_create ∷ storage_payment ∷ storage_remove ∷ code_account_create
    ∷ code_account_call ∷ []

-- `TransactionCode(n)`: the member with the value, or `none` for the ValueError.
pub find_code : ℕ → List TransactionCode → Option TransactionCode
find_code n [] = none
find_code n (c ∷ rest) = if int_of c == n then some c else find_code n rest

pub transaction_code_to_bytes : TransactionCode → Bytes
transaction_code_to_bytes code = int_of code ∷ []

pub transaction_code_from_bytes : Bytes → Option TransactionCode
transaction_code_from_bytes (b ∷ []) = find_code b all_codes
transaction_code_from_bytes _ = none
