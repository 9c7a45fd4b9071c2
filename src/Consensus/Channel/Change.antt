-- ===== src/Consensus/Channel/Change.antt =====
-- What a channel transaction may do to the block, as a relation.
use lib_py.Base.{
  ◌≡◌, ◌≢◌, ap, refl, ◌∙◌, sym, true, false, Option, none, some, inl, inr, Bool-cases, Option-cases,
  ◌∷◌, [], ◌++◌,
}
use lib_py.Base.Int.{ℤ, pos, ◌+ℤ◌, ◌≤ℤ◌, ◌<ℤ◌, ltb_ℤ, int_laws}
use lib_py.Base.Bytes.{Bytes}
use lib_py.Storage.Radix.{RadixTree}
use lib_py.Consensus.Channel.Store.{
  Channel, Accounts, Node, BlockState, channel_of, channels_of, balance_of, put_head, put_channel,
  credit,
}
use lib_py.Consensus.Channel.Store.Lookup.{
  put_channel-Puts, channels_of-credit, balance_of-credit, balance_of-credit_other,
}
use lib_py.Consensus.Channel.{
  updated_channel, withdrawn_channel, closed_channel, write_channel, no_head,
}

-- A channel c becomes c' when `paid` goes to an account and `added` comes from one.
pub record Moves (paid added : ℤ) (c c' : Channel) : Type 0 where
  pub counter_up : c.counter <ℤ c'.counter
  pub balanced : c'.balance +ℤ paid ≡ c.balance +ℤ added
  pub nonneg : pos 0 ≤ℤ c.balance → pos 0 ≤ℤ c'.balance
  pub window_kept : c.withdrawal_window ≤ℤ c'.withdrawal_window

-- One accepted operation: the channel of `owner` with `counterparty`, as the storage has it, moves, its
-- hash is put in the owner's tree and its expression is pending, and `payee` is credited with what is
-- paid.
pub record Change (N : Node) (owner counterparty payee : Bytes) (paid added : ℤ) (old new : Channel)
    (before after : BlockState) : Type 0 where
  pub found : channel_of N before.accounts owner counterparty ≡ some old
  pub moves : Moves paid added old new
  pub tree : RadixTree
  pub new_tree : RadixTree
  pub tree_before : channels_of before.accounts owner ≡ some tree
  pub written : put_head N tree counterparty new ≡ some new_tree
  pub tree_after : channels_of after.accounts owner ≡ some new_tree
  pub pending : after.pending_exprs ≡ before.pending_exprs ++ new ∷ []
  pub others :
      (o : Bytes) → owner ≢ o → channels_of after.accounts o ≡ channels_of before.accounts o
  pub credited :
      (b : ℤ)
      → balance_of before.accounts payee ≡ some b
      → balance_of after.accounts payee ≡ some (b +ℤ paid)
  pub rest : (a : Bytes) → payee ≢ a → balance_of after.accounts a ≡ balance_of before.accounts a

pub updated_channel-Moves :
    (window : Option ℤ) (amount : ℤ) (c c' : Channel)
    → ltb_ℤ amount (pos 0) ≡ false
    → updated_channel window amount c ≡ some c'
    → Moves (pos 0) amount c c'
unfolding updated_channel
updated_channel-Moves none amount c c' h e = record {
  counter_up = grind int_laws;
  balanced = grind int_laws;
  nonneg = grind int_laws;
  window_kept = grind int_laws;
}
updated_channel-Moves (some w) amount c c' h e = record {
  counter_up = grind int_laws;
  balanced = grind int_laws;
  nonneg = grind int_laws;
  window_kept = grind int_laws;
}

pub withdrawn_channel-Moves :
    (now : Option ℤ) (counter amount : ℤ) (c c' : Channel)
    → ltb_ℤ amount (pos 0) ≡ false
    → withdrawn_channel now counter amount c ≡ some c'
    → Moves amount (pos 0) c c'
unfolding withdrawn_channel
withdrawn_channel-Moves none counter amount c c' h e = cc
withdrawn_channel-Moves (some now) counter amount c c' h e = record {
  counter_up = grind int_laws;
  balanced = grind int_laws;
  nonneg = grind int_laws;
  window_kept = grind int_laws;
}

pub closed_channel-Moves : (c : Channel) → Moves c.balance (pos 0) c (closed_channel c)
unfolding closed_channel
closed_channel-Moves c = record {
  counter_up = grind int_laws;
  balanced = grind int_laws;
  nonneg = grind int_laws;
  window_kept = grind int_laws;
}

pub plus_zero : (b : ℤ) → b ≡ b +ℤ pos 0
plus_zero b = grind int_laws

-- A write that returns True has put the channel.
pub write_channel-put :
    (N : Node) (owner counterparty : Bytes) (c : Channel) (finish : Accounts → Accounts)
    (b : BlockState)
    → (write_channel N owner counterparty c finish b).1 ≡ some true
    → (accounts : Accounts) × (put_channel N owner counterparty c b.accounts ≡ some accounts)
      × ((write_channel N owner counterparty c finish b).0
          ≡ record { accounts = finish accounts; pending_exprs = b.pending_exprs ++ c ∷ [] })
unfolding write_channel
write_channel-put N owner counterparty c finish b e = elim (Bool-cases (no_head (N.head c))) [
  | inl none_there ↦ cc (rw (write_channel, none_there) at e)
  | inr fine ↦ elim (Option-cases (put_channel N owner counterparty c b.accounts)) [
    | inl raised ↦ cc (rw (write_channel, fine, raised) at e)
    | inr (accounts, put) ↦ (accounts, put, rw (write_channel, fine, put) refl)
  ]
]

module _ (N : Node) (owner counterparty payee : Bytes) (old new : Channel) (before : BlockState)
    (found : channel_of N before.accounts owner counterparty ≡ some old) where
  -- A write that pays nothing.
  pub write_channel-Change :
      {added : ℤ}
      → Moves (pos 0) added old new
      → (write_channel N owner counterparty new (λ accounts. accounts) before).1 ≡ some true
      → Change N owner counterparty payee
          (pos 0)
          added
          old
          new
          before
          (write_channel N owner counterparty new (λ accounts. accounts) before).0
  write_channel-Change moves e =
      let (accounts, put, same) =
        write_channel-put N owner counterparty new (λ accounts. accounts) before e in
      let p = put_channel-Puts N owner counterparty new before.accounts accounts put in
      rw same (record {
        found = found;
        moves = moves;
        tree = p.tree;
        new_tree = p.new_tree;
        tree_before = p.tree_before;
        written = p.written;
        tree_after = p.tree_after;
        pending = refl;
        others = p.others;
        credited = λ b h. p.balances payee ∙ h ∙ ap some (plus_zero b);
        rest = λ a apart. p.balances a;
      })

  -- The payee is paid after the write.
  pub write_channel-credit-Change :
      {paid added : ℤ}
      → Moves paid added old new
      → (write_channel N owner counterparty new (credit payee paid) before).1 ≡ some true
      → Change N owner counterparty payee paid added old new before
          (write_channel N owner counterparty new (credit payee paid) before).0
  write_channel-credit-Change {paid} moves e =
      let (accounts, put, same) =
        write_channel-put N owner counterparty new (credit payee paid) before e in
      let p = put_channel-Puts N owner counterparty new before.accounts accounts put in
      rw same (record {
        found = found;
        moves = moves;
        tree = p.tree;
        new_tree = p.new_tree;
        tree_before = p.tree_before;
        written = p.written;
        tree_after = channels_of-credit accounts payee owner paid ∙ p.tree_after;
        pending = refl;
        others = λ o apart. channels_of-credit accounts payee o paid ∙ p.others o apart;
        credited = λ b h. balance_of-credit accounts payee paid b (p.balances payee ∙ h);
        rest = λ a apart. balance_of-credit_other accounts payee a paid apart ∙ p.balances a;
      })

  -- The payee is paid before the write.
  pub credit-write_channel-Change :
      {paid added : ℤ}
      → Moves paid added old new
      → let mid : BlockState = record before { accounts = credit payee paid before.accounts } in
        (write_channel N owner counterparty new (λ accounts. accounts) mid).1 ≡ some true
        → Change N owner counterparty payee paid added old new before
            (write_channel N owner counterparty new
              (λ accounts. accounts)
              (record before { accounts = credit payee paid before.accounts })).0
  credit-write_channel-Change {paid} moves e =
      let mid : BlockState = record before { accounts = credit payee paid before.accounts } in
      let (accounts, put, same) =
        write_channel-put N owner counterparty new (λ accounts. accounts) mid e in
      let p = put_channel-Puts N owner counterparty new mid.accounts accounts put in
      rw same (record {
        found = found;
        moves = moves;
        tree = p.tree;
        new_tree = p.new_tree;
        tree_before = sym (channels_of-credit before.accounts payee owner paid) ∙ p.tree_before;
        written = p.written;
        tree_after = p.tree_after;
        pending = refl;
        others = λ o apart. p.others o apart ∙ channels_of-credit before.accounts payee o paid;
        credited = λ b h. p.balances payee ∙ balance_of-credit before.accounts payee paid b h;
        rest = λ a apart. p.balances a ∙ balance_of-credit_other before.accounts payee a paid apart;
      })
