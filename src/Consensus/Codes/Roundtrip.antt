-- ===== src/Consensus/Codes/Roundtrip.antt =====
-- The byte of a transaction code is read back, and nothing else is.
use lib_py.Base.{ℕ, ◌↔◌, ◌≡◌, refl, sym, ap, some, List, [], ◌∷◌, arith}
use lib_py.Base.Bytes.{Bytes}
use lib_py.Consensus.Codes.{
  TransactionCode, transfer, channel_update, channel_withdraw, channel_close, treasury_deposit,
  treasury_borrow, treasury_repay, treasury_close, treasury_guarantee, treasury_buy, treasury_claim,
  storage_create, storage_payment, storage_remove, code_account_create, code_account_call, int_of,
  find_code, all_codes, transaction_code_to_bytes, transaction_code_from_bytes,
}

from_to : (c : TransactionCode) → transaction_code_from_bytes (transaction_code_to_bytes c) ≡ some c
unfolding transaction_code_from_bytes transaction_code_to_bytes find_code int_of
from_to transfer = refl
from_to channel_update = refl
from_to channel_withdraw = refl
from_to channel_close = refl
from_to treasury_deposit = refl
from_to treasury_borrow = refl
from_to treasury_repay = refl
from_to treasury_close = refl
from_to treasury_guarantee = refl
from_to treasury_buy = refl
from_to treasury_claim = refl
from_to storage_create = refl
from_to storage_payment = refl
from_to storage_remove = refl
from_to code_account_create = refl
from_to code_account_call = refl

find_code-int_of :
    (n : ℕ) (l : List TransactionCode) (c : TransactionCode) → find_code n l ≡ some c → int_of c ≡ n
unfolding find_code
find_code-int_of n [] c h = cc
find_code-int_of n (d ∷ l) c h = grind (arith, find_code-int_of n l c)

reads :
    (raw : Bytes) (c : TransactionCode)
    → transaction_code_from_bytes raw ≡ some c
    → raw ≡ transaction_code_to_bytes c
unfolding transaction_code_from_bytes transaction_code_to_bytes
reads [] c h = cc
reads (b ∷ []) c h = ap (λ n. n ∷ []) (sym (find_code-int_of b all_codes c h))
reads (b ∷ d ∷ raw) c h = cc

-- `transaction_code_from_bytes` reads a code from exactly the bytes that
-- `transaction_code_to_bytes` writes for it.
pub transaction_code_from_bytes_iff :
    (raw : Bytes) (c : TransactionCode)
    → (transaction_code_from_bytes raw ≡ some c) ↔ (raw ≡ transaction_code_to_bytes c)
transaction_code_from_bytes_iff raw c = (reads raw c, λ e. rw e (from_to c))
