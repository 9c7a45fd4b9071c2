-- ===== src/Machine/Operators/Sequence.antt =====
-- The operators on sequences, which are bytes, texts and lists of links:
-- src/astreum/machine/operators/sequence. `split`, which changes a shared link in place, and `index`
-- are not modelled.
pub mod Programs
pub mod Plain
pub mod Steps
pub mod Lists
use Prim.Native.String.{String, len, ◌++◌, [] as no_text, ◌∷◌ as ◌then◌}
use text.Mathlib.Text.{◌==◌}
use lib_py.Base as B
use lib_py.Base.{
  ℕ, zero, suc, ◌+◌, Bool, not, ◌&&◌, ◌||◌, Option, none, some, List, [], ◌∷◌, length,
  if◌then◌else◌,
}
use lib_py.Base.Int.{ℤ, pos}
use lib_py.Base.Bytes.{Bytes}
use lib_py.Expression.Expr.{
  Expr, Slot, missing, here, symbol, bytes, int, str, nil, link, get_expr_tag, get_expr_builtin_tag,
  size,
}
use lib_py.Machine.Vm.{
  Action, Result, ok, err, op_error, crash, next, ◌>>=◌, ◌>>◌, pure, raise, of_result, or_raise,
  gets, push, pop, spend, on_stack,
}
use lib_py.Machine.Operators.Result.{with_top}
use lib_py.Machine.Operators.Flow.{is_truthy}

-- The elements of a list: up to a cell that is no plain link, or has no head, or to the end.
unfoldable pub slot_elems : Slot → List Expr
slot_elems (here (link (here h) t)) =
    let rest = slot_elems t in
    if get_expr_builtin_tag (link (here h) t) == "link" then h ∷ rest else []
slot_elems _ = []

abbrev pub collect_elems : Expr → List Expr
collect_elems e = slot_elems (here e)

-- The bytes `value[i:i + 1]`, and the characters of a text.
abbrev pub single_bytes : Bytes → List Expr
single_bytes [] = []
single_bytes (b ∷ rest) = bytes (b ∷ []) ∷ single_bytes rest

unfoldable pub single_chars : String → List Expr
single_chars no_text = []
single_chars (c then rest) = str (c then no_text) ∷ single_chars rest

-- The elements of a sequence with one of the three tags; a link that has the tag "bytes" or "str" has
-- no value, and is a TypeError.
abbrev pub elements : Expr → Option (List Expr)
elements (bytes b) = some (single_bytes b)
elements (str s) = some (single_chars s)
elements e = if get_expr_tag e == "link" then some (collect_elems e) else none

abbrev pub is_sequence : String → Bool
is_sequence t = t == "bytes" || t == "str" || t == "link"

abbrev pub list_of : List Expr → Expr
list_of [] = nil
list_of (e ∷ es) = link (here e) (here (list_of es))

abbrev pub sizes : List Expr → ℕ
sizes [] = 0
sizes (e ∷ es) = size e + sizes es

-- The bytes and the texts of a list, joined; where one has no value, check_kind has refused it.
abbrev pub joined_bytes : List Expr → Bytes
joined_bytes [] = []
joined_bytes (bytes b ∷ es) = B.◌++◌ b (joined_bytes es)
joined_bytes (e ∷ es) = joined_bytes es

abbrev pub joined_text : List Expr → String
joined_text [] = ""
joined_text (str s ∷ es) = s ++ joined_text es
joined_text (e ∷ es) = joined_text es

-- A sequence of the kind of the tag, of the elements, and the cost of it.
abbrev pub assemble : String → List Expr → Expr
assemble tag es =
    if tag == "bytes"
    then bytes (joined_bytes es)
    else if tag == "str"
    then str (joined_text es)
    else list_of es

abbrev pub assemble_cost : String → List Expr → ℕ
assemble_cost tag es = if tag == "link" then sizes es + length es else sizes es

abbrev top_of : List Expr → Expr
top_of [] = nil
top_of (e ∷ rest) = e

-- `_step`: a program on a stack of its own. `_step_for` has checked the program.
unfoldable pub run_step : (Expr → Action (Unit {0})) → Expr → List Expr → Action Expr
run_step run fn pre_stack = do
  spend (sizes pre_stack + 1)
  (done, results) ← on_stack pre_stack (run fn)
  pure (top_of results)

unfoldable pub step_for : Expr → Action (Unit {0})
step_for fn =
    let tag = get_expr_tag fn in
    if not (tag == "link") then raise (op_error ("fn of " ++ tag)) else pure tt

-- The guard on the kind, after which the elements are there or the read is a TypeError.
abbrev pub elements_for : String → Expr → Action (List Expr)
elements_for verb value =
    let tag = get_expr_tag value in
    if is_sequence tag
    then or_raise crash (elements value)
    else raise (op_error (verb ++ " of " ++ tag))
