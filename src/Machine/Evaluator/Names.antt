-- ===== src/Machine/Evaluator/Names.antt =====
-- The names of the operators: src/astreum/machine/operators/main.py.
use Prim.Native.String.{String, ◌++◌}
use text.Mathlib.Text.{◌==◌}
use lib_py.Base.{Bool, false, ◌||◌, List, [], ◌∷◌}

abbrev pub with_variants : List String → List String
with_variants [] = []
with_variants (name ∷ names) = name ∷ (name ++ "?") ∷ with_variants names

abbrev pub arithmetic_operators : List String
arithmetic_operators = with_variants ("+" ∷ "-" ∷ "*" ∷ "/" ∷ "%" ∷ "sqrt" ∷ "abs" ∷ [])

abbrev pub bitwise_operators : List String
bitwise_operators = with_variants ("&" ∷ "|" ∷ "^" ∷ "~" ∷ [])

abbrev pub shift_operators : List String
shift_operators = with_variants ("<<" ∷ "<<<" ∷ [])

abbrev pub comparison_operators : List String
comparison_operators = with_variants ("<" ∷ ">" ∷ "<=" ∷ ">=" ∷ [])

abbrev pub stack_operators : List String
stack_operators = with_variants ("drop" ∷ "dup" ∷ "swap" ∷ "rot" ∷ "dip" ∷ [])

abbrev pub sequence_operators : List String
sequence_operators = with_variants (
    "concat" ∷ "split" ∷ "index" ∷ "count" ∷ "reverse" ∷ "map" ∷ "filter" ∷ "each" ∷ "fold" ∷ "zip"
    ∷ "find" ∷ [])

abbrev pub conversion_operators : List String
conversion_operators =
    with_variants
      ("str" ∷ "int" ∷ "bytes" ∷ "e4m3" ∷ "e5m2" ∷ "fp16" ∷ "bf16" ∷ "fp32" ∷ "fp64" ∷ [])

abbrev pub flow_operators : List String
flow_operators = with_variants ("def" ∷ "rec" ∷ "if" ∷ "closure" ∷ "apply" ∷ [])

abbrev pub actor_operators : List String
actor_operators = with_variants ("spawn" ∷ "send" ∷ "receive" ∷ [])

abbrev pub expression_operators : List String
expression_operators =
    "is"
    ∷ with_variants (
        "link" ∷ "head" ∷ "tail" ∷ "is_eq" ∷ "symbol" ∷ "quote" ∷ "type" ∷ "parse" ∷ "ref" ∷ "load"
        ∷ "init" ∷ "id" ∷ "eval" ∷ [])

abbrev pub block_operators : List String
block_operators =
    "block.chain_id"
    ∷ "block.height"
    ∷ "block.previous_block_hash"
    ∷ "block.timestamp"
    ∷ with_variants ("block.bloom.insert" ∷ [])

abbrev pub time_operators : List String
time_operators = "time" ∷ "clock" ∷ []

abbrev pub console_operators : List String
console_operators = "print" ∷ "println" ∷ []

abbrev pub account_operators : List String
account_operators = "acc.balance" ∷ "acc.get" ∷ "acc.put" ∷ []

abbrev pub tx_operators : List String
tx_operators = "tx.amount" ∷ "tx.recipient" ∷ "tx.sender" ∷ "tx.new" ∷ "tx.log" ∷ []

abbrev pub tag_operators : List String
tag_operators = "ok" ∷ "err" ∷ "result" ∷ "match" ∷ []

-- A frozen set of names, as the test of its members.
abbrev pub in_names : String → List String → Bool
in_names name [] = false
in_names name (key ∷ names) = key == name || in_names name names

abbrev pub in_any : String → List (List String) → Bool
in_any name [] = false
in_any name (names ∷ rest) = in_names name names || in_any name rest

unfoldable pub is_operator : String → Bool
is_operator name = in_any name (
    arithmetic_operators ∷ bitwise_operators ∷ shift_operators ∷ comparison_operators
    ∷ stack_operators ∷ expression_operators ∷ sequence_operators ∷ conversion_operators
    ∷ flow_operators ∷ time_operators ∷ console_operators ∷ account_operators ∷ block_operators
    ∷ tx_operators ∷ tag_operators ∷ actor_operators ∷ [])

unfoldable pub is_blocked : String → Bool
is_blocked name = in_any name (actor_operators ∷ console_operators ∷ time_operators ∷ [])
