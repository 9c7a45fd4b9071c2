-- ===== src/Consensus/Channel/Handlers.antt =====
-- Each handler, when it returns True, has made a change of one channel.
use lib_py.Base.{◌≡◌, refl, inl, inr, true, Option, none, some, Bool-cases, Option-cases}
use lib_py.Base.Int.{ℤ, pos, ◌≤ℤ◌, ◌<ℤ◌, ltb_ℤ, leb_ℤ, int_laws}
use lib_py.Base.Bytes.{Bytes}
use lib_py.Consensus.Channel.Store.{Channel, Node, BlockState, channel_of}
use lib_py.Consensus.Channel.{
  Transaction, updated_channel, withdrawn_channel, closed_channel, voucher_data, signed,
  handle_channel_update, withdraw_voucher, handle_channel_withdraw, handle_channel_close,
}
use lib_py.Consensus.Channel.Change.{
  Change, updated_channel-Moves, withdrawn_channel-Moves, closed_channel-Moves,
  write_channel-Change, write_channel-credit-Change, credit-write_channel-Change,
}

withdrawn_channel-tests :
    (now : Option ℤ) (counter amount : ℤ) (c c' : Channel)
    → withdrawn_channel now counter amount c ≡ some c'
    → (c'.counter ≡ counter)
      × ((time : ℤ) × (now ≡ some time) × (time <ℤ c.withdrawal_window))
      × (amount ≤ℤ c.balance)
unfolding withdrawn_channel
withdrawn_channel-tests none counter amount c c' h = cc
withdrawn_channel-tests (some now) counter amount c c' h =
    (grind int_laws, (now, refl, grind int_laws), grind int_laws)

module _ (N : Node) where
  pub handle_channel_update-Change :
      (sender counterparty : Bytes) (window : Option ℤ) (amount : ℤ) (before : BlockState)
      → (handle_channel_update N sender counterparty window amount before).1 ≡ some true
      → (old : Channel) × (new : Channel) × Change N sender counterparty sender
          (pos 0)
          amount
          old
          new
          before
          (handle_channel_update N sender counterparty window amount before).0
  unfolding handle_channel_update
  handle_channel_update-Change sender counterparty window amount before done =
      elim (Bool-cases (ltb_ℤ amount (pos 0))) [
        | inl negative ↦ cc (rw (handle_channel_update, negative) at done)
        | inr fine ↦ elim (Option-cases (channel_of N before.accounts sender counterparty)) [
          | inl missing ↦ cc (rw (handle_channel_update, fine, missing) at done)
          | inr (c, found) ↦ elim (Option-cases (updated_channel window amount c)) [
            | inl refused ↦ cc (rw (handle_channel_update, fine, found, refused) at done)
            | inr (c', new) ↦ (
              c,
              c',
              rw (handle_channel_update, fine, found, new)
                  (write_channel-Change N sender counterparty sender c c' before found
                    (updated_channel-Moves window amount c c' fine new)
                    (rw (handle_channel_update, fine, found, new) at done)),
            )
          ]
        ]
      ]

  pub handle_channel_close-Change :
      (now : Option ℤ) (sender counterparty : Bytes) (before : BlockState)
      → (handle_channel_close N now sender counterparty before).1 ≡ some true
      → (old : Channel) × (new : Channel) × Change N sender counterparty sender old.balance
          (pos 0)
          old
          new
          before
          (handle_channel_close N now sender counterparty before).0
  unfolding handle_channel_close
  handle_channel_close-Change none sender counterparty before done = cc (done)
  handle_channel_close-Change (some now) sender counterparty before done =
      elim (Option-cases (channel_of N before.accounts sender counterparty)) [
        | inl missing ↦ cc (rw (handle_channel_close, missing) at done)
        | inr (c, found) ↦ elim (Bool-cases (leb_ℤ now c.withdrawal_window)) [
          | inl early ↦ cc (rw (handle_channel_close, found, early) at done)
          | inr over ↦ (
            c,
            closed_channel c,
            rw (handle_channel_close, found, over)
                (credit-write_channel-Change N sender counterparty sender c (closed_channel c)
                  before found (closed_channel-Moves c)
                  (rw (handle_channel_close, found, over) at done)),
          )
        ]
      ]

  -- What a withdrawal that returns True has checked of its voucher.
  pub record Checked (now : Option ℤ) (tx : Transaction) (counter amount : ℤ) (signature : Bytes)
      (before after : BlockState) : Type 0 where
    pub old : Channel
    pub new : Channel
    pub change : Change N tx.recipient tx.sender tx.sender amount (pos 0) old new before after
    pub is_signed : signed N tx counter amount signature ≡ true
    pub new_counter : new.counter ≡ counter
    pub in_time : (time : ℤ) × (now ≡ some time) × (time <ℤ old.withdrawal_window)
    pub covered : (pos 0 ≤ℤ amount) × (amount ≤ℤ old.balance)

  pub withdraw_voucher-Checked :
      (now : Option ℤ) (tx : Transaction) (counter amount : ℤ) (signature : Bytes)
      (before : BlockState)
      → (withdraw_voucher N now tx counter amount signature before).1 ≡ some true
      → Checked now tx counter amount signature before
          (withdraw_voucher N now tx counter amount signature before).0
  unfolding withdraw_voucher
  withdraw_voucher-Checked now tx counter amount signature before done =
      elim (Bool-cases (ltb_ℤ amount (pos 0))) [
        | inl negative ↦ cc (rw (withdraw_voucher, negative) at done)
        | inr fine ↦ elim (Bool-cases (signed N tx counter amount signature)) [
          | inr forged ↦ cc (rw (withdraw_voucher, fine, forged) at done)
          | inl genuine ↦
              elim (Option-cases (channel_of N before.accounts tx.recipient tx.sender)) [
                | inl missing ↦ cc (rw (withdraw_voucher, fine, genuine, missing) at done)
                | inr (c, found) ↦ elim (Option-cases (withdrawn_channel now counter amount c)) [
                  | inl refused ↦ cc (rw (withdraw_voucher, fine, genuine, found, refused) at done)
                  | inr (c', new) ↦
                      let tests = withdrawn_channel-tests now counter amount c c' new in
                      rw (withdraw_voucher, fine, genuine, found, new)
                        (record {
                          old = c;
                          new = c';
                          change =
                              write_channel-credit-Change N tx.recipient tx.sender tx.sender c c'
                                before found
                                (withdrawn_channel-Moves now counter amount c c' fine new)
                                (rw (withdraw_voucher, fine, genuine, found, new) at done);
                          is_signed = genuine;
                          new_counter = tests.0;
                          in_time = tests.1;
                          covered = (grind int_laws, tests.2);
                        })
                ]
              ]
        ]
      ]

  pub handle_channel_withdraw-Checked :
      (now : Option ℤ) (tx : Transaction) (before : BlockState)
      → (handle_channel_withdraw N now tx before).1 ≡ some true
      → (counter : ℤ) × (amount : ℤ) × (signature : Bytes) × (voucher_data tx.data_nodes
          ≡ some (counter, amount, signature))
        × Checked now tx counter amount signature before (handle_channel_withdraw N now tx before).0
  unfolding handle_channel_withdraw
  handle_channel_withdraw-Checked now tx before done =
      elim (Option-cases (voucher_data tx.data_nodes)) [
        | inl other ↦ cc (rw (handle_channel_withdraw, other) at done)
        | inr ((counter, amount, signature), parsed) ↦ (
          counter,
          amount,
          signature,
          parsed,
          rw (handle_channel_withdraw, parsed)
              (withdraw_voucher-Checked now tx counter amount signature before
                (rw (handle_channel_withdraw, parsed) at done)),
        )
      ]
