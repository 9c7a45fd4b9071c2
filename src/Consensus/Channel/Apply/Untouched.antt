-- ===== src/Consensus/Channel/Apply/Untouched.antt =====
-- What a channel transaction leaves alone.
use lib_py.Base.{◌≡◌, ◌≢◌}
use lib_py.Base.Bytes.{Bytes}
use lib_py.Consensus.Channel.Store.{Channel, BlockState, channels_of, balance_of}
use lib_py.Consensus.Channel.Change.{Change}

-- Blocks with the same balances but for one account's, and the same trees of channels but for one
-- account's.
abbrev Alike : Bytes → Bytes → BlockState → BlockState → Type 0
Alike payee owner before after =
    ((a : Bytes) → payee ≢ a → balance_of after.accounts a ≡ balance_of before.accounts a)
    × ((o : Bytes) → owner ≢ o → channels_of after.accounts o ≡ channels_of before.accounts o)
