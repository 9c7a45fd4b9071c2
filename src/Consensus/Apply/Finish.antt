-- ===== src/Consensus/Apply/Finish.antt =====
-- The settlement and the balances at the end of `_apply_tx_effects` of
-- src/astreum/consensus/transaction/apply.py, and the whole of it.
use lib_py.Base.{Bool, true, false, ◌||◌, ◌&&◌, none, some, List, [], ◌∷◌, if◌then◌else◌}
use lib_py.Base.Int.{ℤ, pos, ◌+ℤ◌, ◌-ℤ◌, leb_ℤ, eqb_ℤ}
use lib_py.Base.Bytes.{Bytes, bytes_eq}
use lib_py.Consensus.Codes.{TransactionCode}
use lib_py.Consensus.Fees.{FeeSettlement, settle_fees}
use lib_py.Consensus.Fees
use lib_py.Consensus.Ledger.{
  Account, find, put, Block, add_address, set_account, Transaction, storage_address,
  treasury_address,
}
use lib_py.Consensus.Apply.{
  rate_valid, Recipient, nobody, known, fresh, Work, Applied, raised, no_answer, applied, credit,
  balance_in, Context, rollback,
}
use lib_py.Consensus.Apply.Codes.{credit_funding, guards, match_code}
use lib_py.Consensus.Apply.Charges.{covers, build_receipt, all_fees}

-- What the sender pays: a failure that is found late takes back what the handler wrote.
unfoldable pub settle : Transaction → Work → ℤ → FeeSettlement
settle tx w fee =
    settle_fees (balance_in tx.sender w.block) (pos 1 +ℤ w.report.evaluation) (pos 0) fee w.amount

unfoldable pub settled_work : Block → Transaction → Work → Bool × ℤ → Work × Bool × FeeSettlement
settled_work snapshot tx w (ok, fee) =
    let owed = pos 1 +ℤ w.report.evaluation +ℤ w.amount +ℤ fee in
    let ok' = ok && covers (balance_in tx.sender w.block) owed in
    let w' : Work = if ok' then w else rollback snapshot w in
    let s = settle tx w' fee in
    if s.affordable
    then (w', ok', s)
    else (rollback snapshot w', false, settle tx (rollback snapshot w') fee)

unfoldable pub bump_counter : Bytes → Block → Block
bump_counter key b = elim (find key b.accounts) [
  | none ↦ b
  | some a ↦ record b { accounts = put key (record a { counter = a.counter +ℤ pos 1 }) b.accounts }
]

-- The recipient's account is written under the address of the transaction.
unfoldable pub write_recipient : Transaction → Recipient → Block → Block
write_recipient tx nobody b = b
write_recipient tx (known key) b = elim (find key b.accounts) [
  | none ↦ b
  | some a ↦ (set_account tx.recipient a b).1
]
write_recipient tx (fresh a) b = (set_account tx.recipient a b).1

unfoldable pub deduct : Transaction → Bool → Work → FeeSettlement → Block
deduct tx matched w s =
    let taken = credit tx.sender (pos 0 -ℤ Fees.total s) w.block in
    let stored = credit storage_address s.storage_fee taken in
    let counted : Block = if matched then bump_counter tx.sender stored else stored in
    write_recipient tx w.recipient counted

unfoldable pub add_involved : Transaction → Bool → List Bytes → List Bytes → List Bytes
add_involved tx false seen involved = seen
add_involved tx true seen [] = seen
add_involved tx true seen (key ∷ rest) =
    let more = add_involved tx true seen rest in
    if bytes_eq key tx.sender
      || (bytes_eq key tx.recipient
          || (bytes_eq key storage_address || bytes_eq key treasury_address))
    then more
    else add_address key more

module _ (c : Context) where
  -- From the match of the code to the end.
  unfoldable pub finish : Block → Bytes → Transaction → Bool → List Bytes → Work → Applied
  finish snapshot hash tx matched seen w =
      let w1 : Work = if w.success then w else rollback snapshot w in
      let charged = all_fees c hash tx seen w1 (balance_in tx.sender w1.block) in
      let (w2, ok, s) = settled_work snapshot tx w1 charged in
      elim (find storage_address w2.block.accounts) [
        | none ↦ raised
        | some a ↦
            applied (deduct tx matched w2 s)
              (build_receipt hash w2 ok s.transaction_fee s.data_fee s.storage_fee)
              (add_involved tx (w1.success && ok) seen w1.block.involved)
      ]

  unfoldable pub apply_guarded :
      TransactionCode → Bytes → Transaction → List Bytes → Account → Block → Applied
  apply_guarded code hash tx seen sender snapshot =
      let guarded = guards code tx sender in
      elim (match_code c code hash tx guarded.0 guarded.1 snapshot) [
        | none ↦ no_answer
        | some w ↦ finish snapshot hash tx (eqb_ℤ tx.counter sender.counter) seen w
      ]

  unfoldable pub apply_tx_effects :
      TransactionCode → Bytes → Transaction → List Bytes → Block → Applied
  apply_tx_effects code hash tx seen block =
      if eqb_ℤ tx.chain_id c.chain_id && rate_valid c.previous
      then elim (find tx.sender block.accounts) [
        | none ↦ raised
        | some sender ↦
            if credit_funding code || leb_ℤ (pos 1) sender.balance
            then apply_guarded code hash tx seen sender (record block { involved = [] })
            else raised
      ]
      else raised
