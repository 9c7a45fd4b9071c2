-- ===== src/Consensus/Apply/Tests.antt =====
-- Transactions applied to a small block, and the theorems at them.
use lib_py.Base.{ℕ, Bool, true, ◌-◌, ◌≡◌, refl, false, none, some, List, [], ◌∷◌, if◌then◌else◌}
use lib_py.Base.Int.{ℤ, pos, negsuc, ◌+ℤ◌, ◌-ℤ◌}
use lib_py.Base.Bytes.{Bytes, bytes_eq}
use lib_py.Consensus.Codes.{transfer, treasury_buy}
use lib_py.Consensus.Fees.{settle_fees, pay_in_order, partial}
use lib_py.Consensus.Fees
use lib_py.Consensus.Ledger.{
  Loan, UserRecord, Account, Ledger, find, put, total, Block, Outcome, done, Transaction,
  storage_address, treasury_address, add_address, set_account, pay, put_user, guard, need,
  get_account,
}
use lib_py.Consensus.Treasury.Trade.{buy_at, set_owner}
use lib_py.Consensus.Treasury.{take, put_loan}
use lib_py.Consensus.Apply.{
  work, nobody, Context, Receipt, Applied, raised, no_answer, applied, credit, balance_in, rollback,
  storage_fee, rate_valid,
}
use lib_py.Consensus.Apply.Finish.{
  apply_tx_effects, apply_guarded, finish, settle, settled_work, deduct, bump_counter,
  write_recipient, add_involved,
}
use lib_py.Consensus.Apply.Codes.{
  guards, fail_unless, initial_amount, credit_funding, is_storage_create, max_execution_fee,
  match_code, credit_recipient, get_or_create_recipient,
}
use lib_py.Consensus.Apply.Charges.{
  all_fees, fees_before_receipt, involved_fee, is_in, charge_part, charge_recipient, charge_receipt,
  receipt_fee, build_receipt,
}
use lib_py.Consensus.Apply.Failure.{apply_tx_effects-Apart, block_of}
use lib_py.Consensus.Apply.Apart.{Apart}
use lib_py.Consensus.Apply.Counter.{wrong_counter}
use lib_py.Consensus.Apply.Replay.{History, start, later, applied_once}
use lib_py.Consensus.Ledger.Totals.{counter_at}
use lib_py.Consensus.Apply.Conserve.{total-apply_tx_effects}
use lib_py.Consensus.Apply.Transfers.{transfer_moves, Distinct}
use lib_py.Consensus.Apply.Buyer.{balance_at, buy_at-balances}

abbrev account : ℤ → ℤ → Account
account balance counter = record {
  balance = balance;
  counter = counter;
  code_hash = storage_address;
  users = λ k. none;
}

abbrev alice : Bytes
alice = 1 ∷ []

abbrev bob : Bytes
bob = 2 ∷ []

abbrev accounts_before : Ledger
accounts_before =
    (alice, account (pos 1000) (pos 5))
    ∷ (bob, account (pos 50) (pos 0))
    ∷ (storage_address, account (pos 0) (pos 0))
    ∷ (treasury_address, account (pos 500) (pos 0))
    ∷ []

abbrev before : Block
before = record {
  accounts = accounts_before;
  involved = [];
  global_loaned = pos 0;
  global_defaulted = pos 0;
  global_loan_count = pos 0;
  storage_votes = pos 0;
  storage_claim_count = pos 0;
}

-- Storage costs 2 for each 10 bytes that are begun.
abbrev context : Context
context = record {
  chain_id = pos 1;
  height = 9;
  sender_of = λ h. none;
  references = λ tx. none;
  rate = λ n. none;
  previous = some (1, 10);
  transaction_size = some 100;
  account_size = λ a. some 80;
  receipt_size = λ r. some 60;
  other = λ code hash tx ok amount b. work b false (pos 0) nobody;
}

abbrev sent : ℤ → ℤ → Transaction
sent amount counter = record {
  chain_id = pos 1;
  amount = amount;
  counter = counter;
  cost_limit = pos 0;
  cells = [];
  recipient = bob;
  sender = alice;
}

abbrev run : Transaction → Applied
run tx = apply_tx_effects context transfer (7 ∷ []) tx [] before

abbrev receipt_of : Applied → Receipt
receipt_of (applied b r seen) = r
receipt_of raised =
    build_receipt [] (work before false (pos 0) nobody) false (pos 0) (pos 0) (pos 0)
receipt_of no_answer =
    build_receipt [] (work before false (pos 0) nobody) false (pos 0) (pos 0) (pos 0)

abbrev seen_of : Applied → List Bytes
seen_of (applied b r seen) = seen
seen_of raised = []
seen_of no_answer = []

abbrev Ran : Transaction → Type 0
Ran tx = run tx ≡ applied (block_of before (run tx)) (receipt_of (run tx)) (seen_of (run tx))

-- Alice sends 100, then 10 with her next counter, and the first transaction comes again: what is in
-- the accounts after each.
abbrev state : ℕ → ℕ → ℕ → ℕ → List Bytes → Block
state alice_has alice_counter bob_has stored written = record before {
  accounts =
      (alice, account (pos alice_has) (pos alice_counter))
      ∷ (bob, account (pos bob_has) (pos 0))
      ∷ (storage_address, account (pos stored) (pos 0))
      ∷ (treasury_address, account (pos 500) (pos 0))
      ∷ [];
  involved = written;
}

abbrev answered : Bool → Receipt
answered success = record {
  transaction_hash = 7 ∷ [];
  transaction_fee = pos 1;
  storage_fee = pos 36;
  data_fee = pos 0;
  execution_fee = pos 0;
  success = success;
  mint = pos 0;
}

abbrev run_in : Transaction → Block → Applied
run_in tx b = apply_tx_effects context transfer (7 ∷ []) tx [] b

-- 100 is sent: 1 is paid for the transaction and 4 + 20 + 12 for the storage. A negative amount is
-- taken from the recipient. The counter of the sender is 5, so a transaction with 4 fails.
runs :
    (Ran (sent (pos 100) (pos 5))
      × (balance_at alice (block_of before (run (sent (pos 100) (pos 5)))) ≡ pos 863))
    × (Ran (sent (negsuc 29) (pos 5))
        × (balance_at bob (block_of before (run (sent (negsuc 29) (pos 5)))) ≡ pos 20)
        × ((receipt_of (run (sent (negsuc 29) (pos 5)))).success ≡ true))
    × (Ran (sent (pos 100) (pos 4)) × ((receipt_of (run (sent (pos 100) (pos 4)))).success ≡ false))
unfolding apply_tx_effects apply_guarded finish guards fail_unless initial_amount credit_funding
    is_storage_create max_execution_fee match_code credit_recipient get_or_create_recipient credit
    balance_in rollback storage_fee rate_valid all_fees fees_before_receipt involved_fee is_in
    charge_part charge_recipient charge_receipt receipt_fee build_receipt settle settled_work deduct
    bump_counter write_recipient add_involved settle_fees pay_in_order partial Fees.total find put
    set_account add_address bytes_eq ◌+ℤ◌ ◌-ℤ◌ total
runs = ((refl, refl), (refl, refl, refl), (refl, refl))

history :
    (run_in (sent (pos 100) (pos 5)) before
      ≡ applied (state 863 6 150 36 (bob ∷ [])) (answered true) [])
    × (run_in (sent (pos 10) (pos 6)) (state 863 6 150 36 (bob ∷ []))
        ≡ applied (state 816 7 160 72 (bob ∷ [])) (answered true) [])
    × (run_in (sent (pos 100) (pos 5)) (state 816 7 160 72 (bob ∷ []))
        ≡ applied (state 779 7 160 108 []) (answered false) [])
unfolding apply_tx_effects apply_guarded finish guards fail_unless initial_amount credit_funding
    is_storage_create max_execution_fee match_code credit_recipient get_or_create_recipient credit
    balance_in rollback storage_fee rate_valid all_fees fees_before_receipt involved_fee is_in
    charge_part charge_recipient charge_receipt receipt_fee build_receipt settle settled_work deduct
    bump_counter write_recipient add_involved settle_fees pay_in_order partial Fees.total find put
    set_account add_address bytes_eq ◌+ℤ◌ ◌-ℤ◌ total
history = (refl, refl, refl)

three_accounts :
    (tx_amount : ℤ)
    → Distinct
        (sent tx_amount (pos 5))
        before
        (account (pos 1000) (pos 5))
        (account (pos 50) (pos 0))
unfolding find bytes_eq
three_accounts tx_amount = record {
  sender_there = refl;
  recipient_there = refl;
  recipient-sender = refl;
  recipient-storage = refl;
  sender-storage = refl;
}

transfer_moves_example :
    let after = block_of before (run (sent (negsuc 29) (pos 5))) in
    let r = receipt_of (run (sent (negsuc 29) (pos 5))) in
    (balance_at bob after ≡ pos 50 +ℤ negsuc 29)
    × (balance_at alice after
        ≡ pos 1000 +ℤ (pos 0 -ℤ (r.transaction_fee +ℤ r.data_fee +ℤ r.storage_fee +ℤ negsuc 29)))
unfolding find bytes_eq
transfer_moves_example =
    transfer_moves context (7 ∷ []) (sent (negsuc 29) (pos 5)) [] before
      (block_of before (run (sent (negsuc 29) (pos 5))))
      (receipt_of (run (sent (negsuc 29) (pos 5)))) (seen_of (run (sent (negsuc 29) (pos 5))))
      (account (pos 1000) (pos 5)) (account (pos 50) (pos 0)) (three_accounts (negsuc 29)) runs.1.0
      runs.1.2

total-apply_tx_effects_example :
    let after = block_of before (run (sent (pos 100) (pos 5))) in
    let r = receipt_of (run (sent (pos 100) (pos 5))) in
    total after.accounts +ℤ r.transaction_fee +ℤ r.data_fee ≡ total before.accounts
unfolding find bytes_eq
total-apply_tx_effects_example =
    total-apply_tx_effects context transfer (7 ∷ []) (sent (pos 100) (pos 5)) [] before
      (block_of before (run (sent (pos 100) (pos 5)))) (receipt_of (run (sent (pos 100) (pos 5))))
      (seen_of (run (sent (pos 100) (pos 5)))) refl refl runs.0.0

wrong_counter_example :
    let after = block_of before (run (sent (pos 100) (pos 4))) in
    ((receipt_of (run (sent (pos 100) (pos 4)))).success ≡ false)
    × (counter_at alice after ≡ counter_at alice before)
unfolding find bytes_eq
wrong_counter_example =
    wrong_counter context transfer (7 ∷ []) (sent (pos 100) (pos 4)) [] before
      (block_of before (run (sent (pos 100) (pos 4)))) (receipt_of (run (sent (pos 100) (pos 4))))
      (seen_of (run (sent (pos 100) (pos 4)))) refl refl runs.2.0

apply_tx_effects-Apart_example :
    Apart alice storage_address before (block_of before (run (sent (pos 100) (pos 4))))
apply_tx_effects-Apart_example =
    apply_tx_effects-Apart context transfer (7 ∷ []) (sent (pos 100) (pos 4)) [] before
      (block_of before (run (sent (pos 100) (pos 4)))) (receipt_of (run (sent (pos 100) (pos 4))))
      (seen_of (run (sent (pos 100) (pos 4)))) runs.2.0 runs.2.1

-- Bob's loan is bought by Alice for 10, with an offer of 1000.
abbrev loan_of_bob : Loan
loan_of_bob = record {
  schedule = record {
    creation_block_number = 0;
    discounted_amount = 10;
    payment_amount = 5;
    payment_interval_blocks = 4;
    next_payment_block_number = 4;
    payment_count = 2;
  };
  unsecured = false;
  claimed_guarantees = [];
  missed_count = 0;
  owner = bob;
}

abbrev no_record : UserRecord
no_record = record {
  balance = pos 0;
  loans = [];
  guarantees = λ k. none;
  total_interest_paid = pos 0;
  loaned = pos 0;
  defaulted = pos 0;
  guaranteed = pos 0;
}

abbrev bought : Outcome (Unit {0}) × Block
bought = buy_at (sent (pos 1000) (pos 5)) 1000 10 (3 ∷ []) (9 ∷ []) no_record loan_of_bob before

bought_done : bought ≡ (done tt, bought.1)
unfolding buy_at take set_owner put_user pay guard need get_account set_account find put bytes_eq
    ◌+ℤ◌ ◌-ℤ◌ add_address put_loan
bought_done = refl

buy_at-balances_example :
    (balance_at alice bought.1
      ≡ balance_at alice before
        +ℤ (if bytes_eq bob alice then pos 0 -ℤ pos 10 else pos 0)
        +ℤ (if bytes_eq alice alice then pos (1000 - 10) else pos 0))
    × (initial_amount treasury_buy (pos 1000) ≡ pos 0)
buy_at-balances_example =
    buy_at-balances (sent (pos 1000) (pos 5)) 1000 10 (3 ∷ []) (9 ∷ []) no_record loan_of_bob before
      bought.1 alice bought_done

second_History : History (state 863 6 150 36 (bob ∷ [])) (state 816 7 160 72 (bob ∷ []))
unfolding find bytes_eq
second_History =
    later context transfer (7 ∷ []) (sent (pos 10) (pos 6)) [] (answered true) [] refl refl
      history.1 start

applied_once_example : (answered false).success ≡ false
unfolding find bytes_eq
applied_once_example =
    applied_once context context transfer (7 ∷ []) (7 ∷ []) (sent (pos 100) (pos 5)) [] [] before
      (state 863 6 150 36 (bob ∷ [])) (state 816 7 160 72 (bob ∷ [])) (state 779 7 160 108 [])
      (answered true) (answered false) [] [] refl refl history.0 refl second_History history.2
