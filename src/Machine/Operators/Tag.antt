-- ===== src/Machine/Operators/Tag.antt =====
-- The operators on tagged values: src/astreum/machine/operators/tag.
use Prim.Native.String.{String}
use text.Mathlib.Text.{◌==◌}
use lib_py.Base.{◌+◌, Bool, false, not, ◌&&◌, Option, none, some, List, [], ◌∷◌, if◌then◌else◌}
use lib_py.Expression.Expr.{
  Expr, Slot, missing, here, head_of, ok_of, err_of, get_expr_tag, get_expr_builtin_tag, size,
}
use lib_py.Machine.Vm.{Action, outside, ◌>>=◌, ◌>>◌, raise, gets, push, pop, spend, need}
use lib_py.Machine.Operators.Expression.{text_of}

unfoldable pub handle_stack_ok : Action (Unit {0})
handle_stack_ok = do need 1; value ← pop; spend (size value + 1); push (ok_of value)

unfoldable pub handle_stack_err : Action (Unit {0})
handle_stack_err = do
  need 1
  msg ← pop
  spend (size msg + 1)
  push (Expr.link (here msg) (here (Expr.symbol "err")))

-- `stack.append(val.head)`. A head that is None would stand on the stack, which is not modelled.
abbrev pub push_slot : Slot → Action (Unit {0})
push_slot missing = raise outside
push_slot (here e) = push e

abbrev pub push_head : Expr → Action (Unit {0})
push_head val = push_slot (head_of val)

-- A value that is no text is different from each tag.
abbrev pub has_tag : Expr → Option String → Bool
has_tag val none = false
has_tag val (some t) = get_expr_tag val == t

unfoldable pub handle_stack_match : (Expr → Action (Unit {0})) → Action (Unit {0})
handle_stack_match run = do
  need 4
  fail_cl ← pop
  succ_cl ← pop
  succ_tag ← pop
  val ← pop
  if has_tag val (text_of succ_tag)
      then (do push_head val; run succ_cl)
      else (do push val; run fail_cl)

abbrev pub is_tagged : Expr → Bool
is_tagged e = get_expr_builtin_tag e == "link" && not (get_expr_tag e == "link")

-- The part that a continuation on the top of the stack reaches.
abbrev pub result_of : (Expr → Action (Unit {0})) → Expr → Expr → Action (Unit {0})
result_of run continuation tagged =
    if not (is_tagged tagged)
    then (do push tagged; push continuation; push (err_of "expected tagged value, got raw"))
    else if get_expr_tag tagged == "err"
    then push tagged
    else (do push_head tagged; run continuation)

abbrev pub or_pop_of :
    List Expr → Action (Unit {0}) → (Expr → Action (Unit {0})) → Action (Unit {0})
or_pop_of [] empty f = empty
or_pop_of (e ∷ rest) empty f = do x ← pop; f x

abbrev pub or_pop : Action (Unit {0}) → (Expr → Action (Unit {0})) → Action (Unit {0})
or_pop empty f = do stack ← gets (λ vm. vm.stack); or_pop_of stack empty f

unfoldable pub handle_stack_result : (Expr → Action (Unit {0})) → Action (Unit {0})
handle_stack_result run = or_pop (push (err_of "stack underflow")) λ top.
    if is_tagged top
    then (if get_expr_tag top == "err" then push top else push_head top)
    else or_pop (do push top; push (err_of "no tagged value on stack"))
        λ tagged. result_of run top tagged
