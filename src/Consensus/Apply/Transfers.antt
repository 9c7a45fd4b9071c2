-- ===== src/Consensus/Apply/Transfers.antt =====
-- What a transfer that succeeds moves.
use lib_py.Base.{
  ◌≡◌, refl, ap, subst, ◌∙◌, Bool, true, false, ◌&&◌, ◌||◌, some, List, [], if◌then◌else◌,
  Bool-cases, inl, inr,
}
use lib_py.Base.Int.{ℤ, pos, ◌+ℤ◌, ◌-ℤ◌, leb_ℤ, eqb_ℤ}
use lib_py.Base.Bytes.{Bytes, bytes_eq, bytes_eq→eq, bytes_eq_self}
use lib_py.Consensus.Codes.{transfer}
use lib_py.Consensus.Fees.{FeeSettlement}
use lib_py.Consensus.Fees
use lib_py.Consensus.Fees.Settlement.{settle_fees-moves}
use lib_py.Consensus.Ledger.{Account, find, Block, Transaction, storage_address}
use lib_py.Consensus.Apply.{
  Work, Recipient, known, Context, Receipt, Applied, raised, no_answer, applied, credit, rate_valid,
}
use lib_py.Consensus.Apply.Finish.{settle, finish, apply_guarded, apply_tx_effects, deduct}
use lib_py.Consensus.Apply.Codes.{
  match_code, guards, initial_amount, credit_funding, credit_recipient, get_or_create_recipient,
}
use lib_py.Consensus.Apply.Branches.{guards-amount}
use lib_py.Consensus.Apply.Buyer.{balance_of, balance_at}
use lib_py.Consensus.Apply.Moved.{
  balance_at-credit, find-credit, balance_at-bump, balance_at-write, Moved, finish-Moved,
}

differs_sym : (a b : Bytes) → bytes_eq a b ≡ false → bytes_eq b a ≡ false
differs_sym a b h = elim (Bool-cases (bytes_eq b a)) [
  | inl e ↦ cc (h, ap (bytes_eq a) (bytes_eq→eq b a e), bytes_eq_self a)
  | inr e ↦ e
]

-- The sender, the recipient and the storage account are three accounts.
pub record Distinct (tx : Transaction) (b : Block) (s a : Account) : Type 0 where
  pub sender_there : find tx.sender b.accounts ≡ some s
  pub recipient_there : find tx.recipient b.accounts ≡ some a
  pub recipient-sender : bytes_eq tx.recipient tx.sender ≡ false
  pub recipient-storage : bytes_eq tx.recipient storage_address ≡ false
  pub sender-storage : bytes_eq tx.sender storage_address ≡ false

-- What the two have after a receipt.
abbrev pub Moves : Transaction → Account → Account → Applied → Type 0
Moves tx s a raised = Unit
Moves tx s a no_answer = Unit
Moves tx s a (applied after r seen) =
    r.success ≡ true
    → (balance_at tx.recipient after ≡ a.balance +ℤ tx.amount)
      × (balance_at tx.sender after
          ≡ s.balance +ℤ (pos 0 -ℤ (r.transaction_fee +ℤ r.data_fee +ℤ r.storage_fee +ℤ tx.amount)))

module _ (tx : Transaction) (b : Block) (s a : Account) (d : Distinct tx b s a) where
  abbrev moved_work : Bool → ℤ → Work
  moved_work ok amount = credit_recipient (known tx.recipient) ok amount b

  recipient-deduct :
      (matched ok : Bool) (amount : ℤ) (f : FeeSettlement)
      → balance_at tx.recipient (deduct tx matched (moved_work ok amount) f) ≡ a.balance +ℤ amount
  unfolding deduct credit_recipient
  recipient-deduct matched ok amount f =
      balance_at-write tx tx.recipient _
      ∙ balance_at-bump tx.recipient tx.sender matched _
      ∙ ap balance_of (
          find-credit tx.recipient storage_address _ _
            (differs_sym tx.recipient storage_address d.recipient-storage))
      ∙ ap balance_of (
          find-credit tx.recipient tx.sender _ _
            (differs_sym tx.recipient tx.sender d.recipient-sender))
      ∙ balance_at-credit tx.recipient amount b a d.recipient_there

  sender-deduct :
      (matched ok : Bool) (amount : ℤ) (f : FeeSettlement)
      → balance_at tx.sender (deduct tx matched (moved_work ok amount) f)
        ≡ s.balance +ℤ (pos 0 -ℤ Fees.total f)
  unfolding deduct credit_recipient
  sender-deduct matched ok amount f =
      balance_at-write tx tx.sender _
      ∙ balance_at-bump tx.sender tx.sender matched _
      ∙ ap balance_of (
          find-credit tx.sender storage_address _ _
            (differs_sym tx.sender storage_address d.sender-storage))
      ∙ balance_at-credit tx.sender (pos 0 -ℤ Fees.total f) (credit tx.recipient amount b) s
          (find-credit tx.sender tx.recipient amount b d.recipient-sender ∙ d.sender_there)

  credited-Moves :
      (ok matched : Bool) (amount : ℤ) (o : Applied)
      → (ok ≡ true → amount ≡ tx.amount)
      → Moved tx b matched (moved_work ok amount) o
      → Moves tx s a o
  unfolding credit_recipient Fees.total settle
  credited-Moves ok matched amount raised h m = tt
  credited-Moves ok matched amount no_answer h m = tt
  credited-Moves ok matched amount (applied after r seen) h m = λ e.
      let (fee, good, paid, same, t, df, sf) = m e in
      let f = settle tx (moved_work ok amount) fee in
      let all : f.transfer_amount ≡ amount = settle_fees-moves _ _ _ _ amount (inl paid) in
      (
        rw (same, recipient-deduct matched ok amount f, h good) refl,
        rw (same, sender-deduct matched ok amount f, t, df, sf, all, h good) refl,
      )

  apply_guarded-Moves :
      (c : Context) (hash : Bytes) (seen : List Bytes)
      → Moves tx s a (apply_guarded c transfer hash tx seen s b)
  unfolding apply_guarded match_code initial_amount
  apply_guarded-Moves c hash seen = from_recipient _ recipient
    where
      matched : Bool
      matched = eqb_ℤ tx.counter s.counter

      ok : Bool
      ok = (guards transfer tx s).0

      recipient : get_or_create_recipient tx b ≡ known tx.recipient
      recipient =
          unfold get_or_create_recipient in
          rw (get_or_create_recipient, d.recipient-sender, d.recipient-storage, d.recipient_there)
            refl

      from_recipient :
          (r : Recipient)
          → r ≡ known tx.recipient
          → Moves tx s a (
              finish c b hash tx
                (eqb_ℤ tx.counter s.counter)
                seen
                (credit_recipient r (guards transfer tx s).0 (guards transfer tx s).1 b))
      from_recipient r e = rw e (
          credited-Moves (guards transfer tx s).0 (eqb_ℤ tx.counter s.counter)
            (guards transfer tx s).1 _ (guards-amount transfer tx s)
            (finish-Moved tx c hash b _ seen _))

-- A transfer between accounts that are there, with sender, recipient and storage account all
-- different, whose receipt is a success adds the amount to the recipient's balance and takes the
-- amount and the fees of the receipt from the sender's, whatever the sign of the amount.
pub transfer_moves :
    (c : Context) (hash : Bytes) (tx : Transaction) (seen : List Bytes) (block after : Block)
    (r : Receipt) (seen' : List Bytes) (s a : Account)
    → Distinct tx block s a
    → apply_tx_effects c transfer hash tx seen block ≡ applied after r seen'
    → r.success ≡ true
    → (balance_at tx.recipient after ≡ a.balance +ℤ tx.amount)
      × (balance_at tx.sender after
          ≡ s.balance +ℤ (pos 0 -ℤ (r.transaction_fee +ℤ r.data_fee +ℤ r.storage_fee +ℤ tx.amount)))
unfolding apply_tx_effects
transfer_moves c hash tx seen block after r seen' s a d e success =
    subst (λ o. Moves tx s a o) e
      (elim (Bool-cases (eqb_ℤ tx.chain_id c.chain_id && rate_valid c.previous)) [
        | inl valid ↦ rw (apply_tx_effects, valid, d.sender_there) sent
        | inr invalid ↦ rw (apply_tx_effects, invalid) tt
      ])
      success
  where
    cleared : Distinct tx (record block { involved = [] }) s a
    cleared = record {
      sender_there = d.sender_there;
      recipient_there = d.recipient_there;
      recipient-sender = d.recipient-sender;
      recipient-storage = d.recipient-storage;
      sender-storage = d.sender-storage;
    }

    sent : Moves tx s a (
        if credit_funding transfer || leb_ℤ (pos 1) s.balance
        then apply_guarded c transfer hash tx seen s (record block { involved = [] })
        else raised)
    sent = elim (Bool-cases (credit_funding transfer || leb_ℤ (pos 1) s.balance)) [
      | inl covered ↦
          rw covered
            (apply_guarded-Moves tx (record block { involved = [] }) s a cleared c hash seen)
      | inr short ↦ rw short tt
    ]
