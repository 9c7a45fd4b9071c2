-- ===== src/Consensus/Apply/Replay.antt =====
-- A transaction that is applied again, after any others.
use lib_py.Base.{
  ◌≡◌, refl, ap, Bool, true, false, List, if◌then◌else◌, arith, Bool-cases, inl, inr, ◌+◌,
}
use lib_py.Base.Int.{ℤ, pos, ◌+ℤ◌, ◌≤ℤ◌, eqb_ℤ, int_laws, pos_part, neg_part}
use lib_py.Base.Bytes.{Bytes, bytes_eq_self}
use lib_py.Consensus.Codes.{
  TransactionCode, transfer, channel_update, channel_withdraw, channel_close, treasury_deposit,
  treasury_borrow, treasury_repay, treasury_close, treasury_guarantee, treasury_buy, treasury_claim,
  storage_create, storage_payment, storage_remove, code_account_create, code_account_call,
}
use lib_py.Consensus.Ledger.{Block, Transaction, storage_address}
use lib_py.Consensus.Ledger.Steps.{has}
use lib_py.Consensus.Ledger.Totals.{counter_at}
use lib_py.Consensus.Apply.{Context, Receipt, applied}
use lib_py.Consensus.Apply.Finish.{apply_tx_effects}
use lib_py.Consensus.Apply.Conserve.{is_conserving, apply_tx_effects-Books}
use lib_py.Consensus.Apply.Counter.{is_translated, wrong_counter}

-- The block after any transactions of the codes that move what is there, by any senders.
pub data History : Block → Block → Type 0 where
  start : {b : Block} → History b b
  later :
      {before b after : Block} (c : Context) (code : TransactionCode) (hash : Bytes)
      (tx : Transaction) (seen : List Bytes) (r : Receipt) (seen' : List Bytes)
      → is_conserving code ≡ true
      → has storage_address before ≡ true
      → apply_tx_effects c code hash tx seen before ≡ applied b r seen'
      → History b after
      → History before after

ticked : (one : Bool) (a b c : ℤ) → b ≡ a +ℤ (if one then pos 1 else pos 0) → b ≤ℤ c → a ≤ℤ c
ticked true a b c e h = omega (int_laws, h, ap pos_part e, ap neg_part e)
ticked false a b c e h = omega (int_laws, h, ap pos_part e, ap neg_part e)

-- No counter is ever lowered.
counter_at-History :
    {before after : Block}
    → History before after
    → (key : Bytes) → counter_at key before ≤ℤ counter_at key after
counter_at-History start key = omega arith
counter_at-History (later {before} {b} {after} c code hash tx seen r seen' h stored e rest) key =
    ticked _ (counter_at key before) (counter_at key b) (counter_at key after)
      ((apply_tx_effects-Books c code hash tx seen before b r seen' h stored e).1 key)
      (counter_at-History rest key)

is_conserving-is_translated :
    (code : TransactionCode) → is_conserving code ≡ true → is_translated code ≡ true
is_conserving-is_translated transfer h = refl
is_conserving-is_translated treasury_deposit h = refl
is_conserving-is_translated treasury_repay h = refl
is_conserving-is_translated treasury_close h = refl
is_conserving-is_translated treasury_buy h = refl
is_conserving-is_translated treasury_claim h = refl
is_conserving-is_translated storage_remove h = refl
is_conserving-is_translated code_account_create h = refl
is_conserving-is_translated channel_update h = cc
is_conserving-is_translated channel_withdraw h = cc
is_conserving-is_translated channel_close h = cc
is_conserving-is_translated treasury_borrow h = refl
is_conserving-is_translated treasury_guarantee h = refl
is_conserving-is_translated storage_create h = cc
is_conserving-is_translated storage_payment h = cc
is_conserving-is_translated code_account_call h = cc

eqb_ℤ-parts : (a b : ℤ) → eqb_ℤ a b ≡ true → pos_part a + neg_part b ≡ pos_part b + neg_part a
eqb_ℤ-parts a b e = ground arith

used_up : (n a b c : ℤ) → eqb_ℤ n a ≡ true → b ≡ a +ℤ pos 1 → b ≤ℤ c → eqb_ℤ n c ≡ false
used_up n a b c e f h = elim (Bool-cases (eqb_ℤ n c)) [
  | inl g ↦
      absurd
        (omega (int_laws, h, eqb_ℤ-parts n a e, eqb_ℤ-parts n c g, ap pos_part f, ap neg_part f))
  | inr g ↦ g
]

-- A transaction that was a success is not one again: after it and after any transactions of the codes
-- that transfer, deposit, borrow, guarantee, repay, close, claim, remove or create an account, by any senders and whatever
-- their results, the same sender's transaction with that counter gets a receipt without success.
pub applied_once :
    (c c' : Context) (code : TransactionCode) (hash hash' : Bytes) (tx : Transaction)
    (seen seen2 : List Bytes) (before b next_block after : Block) (r r' : Receipt)
    (seen' seen2' : List Bytes)
    → is_conserving code ≡ true
    → has storage_address before ≡ true
    → apply_tx_effects c code hash tx seen before ≡ applied b r seen'
    → r.success ≡ true
    → History b next_block
    → apply_tx_effects c' code hash' tx seen2 next_block ≡ applied after r' seen2'
    → r'.success ≡ false
applied_once c c' code hash hash' tx seen seen2 before b next_block after r r' seen' seen2' h stored
      e success history again =
    elim (Bool-cases (eqb_ℤ tx.counter (counter_at tx.sender before))) [
      | inl matches ↦
          let raised_by =
            (apply_tx_effects-Books c code hash tx seen before b r seen' h stored e).1 tx.sender in
          (wrong_counter c' code hash' tx seen2 next_block after r' seen2'
            (is_conserving-is_translated code h)
            (used_up tx.counter (counter_at tx.sender before) (counter_at tx.sender b)
              (counter_at tx.sender next_block) matches
              (rw (matches, bytes_eq_self tx.sender) at raised_by)
              (counter_at-History history tx.sender))
            again).0
      | inr differs ↦
          let refused =
            wrong_counter c code hash tx seen before b r seen' (is_conserving-is_translated code h)
              differs e in
          cc (success, refused.0)
    ]
