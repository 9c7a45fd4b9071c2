-- ===== src/Machine/Operators/Expression.antt =====
-- The operators on expressions: src/astreum/machine/operators/expression.
-- `is_eq`, `id`, `symbol`, `init`, `parse`, `ref` and `load` are not modelled.
use Prim.Native.String.{String, ◌++◌}
use text.Mathlib.Text.{◌==◌}
use lib_py.Base.{Bool, not, Option, none, some, if◌then◌else◌, List, [], ◌∷◌}
use lib_py.Expression.Expr.{
  Expr, Slot, missing, here, symbol, str, nil, link, head_of, tail_of, flag, get_expr_tag,
  get_expr_builtin_tag, size,
}
use lib_py.Machine.Vm.{
  Action, op_error, outside, ◌>>=◌, ◌>>◌, pure, raise, or_raise, gets, push, pop, spend, need,
}
use lib_py.Machine.Operators.Result.{with_top}

-- The attribute `value`, where it is a text.
abbrev pub text_of : Expr → Option String
text_of (symbol s) = some s
text_of (str s) = some s
text_of _ = none

unfoldable pub handle_stack_link : Action (Unit {0})
handle_stack_link = do tail ← pop; head ← pop; spend 1; push (link (here head) (here tail))

abbrev pub or_nil : Slot → Expr
or_nil missing = nil
or_nil (here e) = e

-- The guard of `head` and `tail`, and the two branches, which differ in what is pushed.
abbrev pub part_of : String → (Expr → Slot) → Expr → Action (Unit {0})
part_of verb part pair =
    let tag = get_expr_builtin_tag pair in
    if not (tag == "link")
    then raise (op_error (verb ++ " of " ++ tag))
    else (do spend 1; push (or_nil (part pair)))

unfoldable pub handle_stack_head : Action (Unit {0})
handle_stack_head = do pair ← pop; part_of "head" head_of pair

unfoldable pub handle_stack_tail : Action (Unit {0})
handle_stack_tail = do pair ← pop; part_of "tail" tail_of pair

unfoldable pub handle_stack_quote : Action (Unit {0})
handle_stack_quote = do v ← pop; spend (size v); push (link (here (symbol "'")) (here v))

-- The charge of a refused `eval` is made before the raise.
abbrev pub charge_empty : List Expr → Action (Unit {0})
charge_empty [] = do spend 1; raise (op_error "stack underflow")
charge_empty (e ∷ rest) = pure tt

unfoldable pub handle_stack_eval : (Expr → Action (Unit {0})) → Action (Unit {0})
handle_stack_eval run = do
  stack ← gets (λ vm. vm.stack)
  charge_empty stack
  val ← pop
  spend (size val)
  run val

-- No charge is made.
unfoldable pub handle_stack_type : Action (Unit {0})
handle_stack_type = do need 1; e ← pop; push (symbol (get_expr_tag e))

abbrev pub is_match : Expr → Expr → Action Bool
is_match tag_sym val =
    if not (get_expr_builtin_tag tag_sym == "symbol")
    then raise (op_error "is requires a symbol")
    else (do target ← or_raise outside (text_of tag_sym); pure (get_expr_tag val == target))

unfoldable pub handle_stack_is : Action (Unit {0})
handle_stack_is = do
  need 2
  tag_sym ← pop
  val ← pop
  match ← is_match tag_sym val
  spend 1
  push (flag match)

unfoldable pub handle_stack_link_with_result : Action (Unit {0})
handle_stack_link_with_result = with_top handle_stack_link

unfoldable pub handle_stack_head_with_result : Action (Unit {0})
handle_stack_head_with_result = with_top handle_stack_head

unfoldable pub handle_stack_tail_with_result : Action (Unit {0})
handle_stack_tail_with_result = with_top handle_stack_tail

unfoldable pub handle_stack_quote_with_result : Action (Unit {0})
handle_stack_quote_with_result = with_top handle_stack_quote

unfoldable pub handle_stack_eval_with_result : (Expr → Action (Unit {0})) → Action (Unit {0})
handle_stack_eval_with_result run = with_top (handle_stack_eval run)

unfoldable pub handle_stack_type_with_result : Action (Unit {0})
handle_stack_type_with_result = with_top handle_stack_type
