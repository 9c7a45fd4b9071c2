-- ===== src/Machine/Operators/Flow.antt =====
-- The operators `if`, `rec`, `def` and `apply`: src/astreum/machine/operators.
-- `closure` is not modelled, nor the application of what it makes.
pub mod Definition
use Prim.Native.String.{String, ◌++◌}
use text.Mathlib.Text.{◌==◌}
use lib_py.Base.{
  ℕ, zero, suc, ◌+◌, Bool, true, false, not, ◌&&◌, ◌||◌, Option, none, some, List, [], ◌∷◌,
  if◌then◌else◌, ltb,
}
use lib_py.Base.Int.{pos, eqb_ℤ}
use lib_py.Base.Bytes.{from_bytes_big}
use lib_py.Expression.Expr.{
  Expr, Slot, missing, here, bytes, int, symbol, link, head_of, tail_of, get_expr_tag,
  get_expr_builtin_tag, is_float_tag, size,
}
use lib_py.Machine.Vm.{
  Vm, Env, Result, ok, err, Error, Action, op_error, index_error, crash, outside, no_fuel, next,
  ◌>>=◌, ◌>>◌, pure, raise, of_result, or_raise, gets, push, pop, spend, need, bind_name, frame_get,
  inside,
}
use lib_py.Machine.Operators.Result.{with_top, with_nil}
use lib_py.Machine.Operators.Expression.{text_of}

-- The attribute `value` is None in a link with the tag "bytes", which is a TypeError.
abbrev bytes_truthy : Expr → Result Bool
bytes_truthy (bytes b) = ok (ltb 0 (from_bytes_big b))
bytes_truthy _ = err crash

-- In a link with the tag "int" it is None, which is not 0.
abbrev int_truthy : Expr → Bool
int_truthy (int v) = not (eqb_ℤ v (pos 0))
int_truthy _ = true

abbrev has_head : Slot → Bool
has_head missing = false
has_head (here e) = true

unfoldable pub is_truthy : Expr → Result Bool
is_truthy e =
    let tag = get_expr_tag e in
    if tag == "bytes"
    then bytes_truthy e
    else if tag == "int"
    then ok (int_truthy e)
    else if is_float_tag tag
    then err outside
    else if tag == "link"
    then ok (has_head (head_of e))
    else ok (not (tag == "err" || tag == "none"))

unfoldable pub handle_stack_if : (Expr → Action (Unit {0})) → Action (Unit {0})
handle_stack_if run = do
  need 3
  else_branch ← pop
  then_branch ← pop
  cond_quote ← pop
  run cond_quote
  need 1
  condition ← pop
  spend (size condition)
  truthy ← of_result (is_truthy condition)
  run (if truthy then then_branch else else_branch)

-- The loop of `rec` up to its `break`, on fuel; the result is `rec2_count`.
unfoldable pub rec_loop : ℕ → (Expr → Action (Unit {0})) → Expr → Expr → Expr → ℕ → Action ℕ
rec_loop zero run pred then_branch rec1 count = raise no_fuel
rec_loop (suc fuel) run pred then_branch rec1 count = do
  spend (size pred)
  run pred
  condition ← pop
  spend (size condition)
  truthy ← of_result (is_truthy condition)
  if truthy
      then (do spend (size then_branch); run then_branch; pure count)
      else (do spend (size rec1); run rec1; rec_loop fuel run pred then_branch rec1 (suc count))

unfoldable pub rec_unwind : ℕ → (Expr → Action (Unit {0})) → Expr → Action (Unit {0})
rec_unwind zero run rec2 = pure tt
rec_unwind (suc count) run rec2 = do spend (size rec2); run rec2; rec_unwind count run rec2

unfoldable pub handle_stack_rec : ℕ → (Expr → Action (Unit {0})) → Action (Unit {0})
handle_stack_rec fuel run = do
  need 4
  rec2 ← pop
  rec1 ← pop
  then_branch ← pop
  pred ← pop
  count ← rec_loop fuel run pred then_branch rec1 0
  rec_unwind count run rec2

-- The name is checked, the charge made, and only then the binding refused.
abbrev pub put_new : Option Expr → String → Expr → Action (Unit {0})
put_new none name value = bind_name name value
put_new (some bound) name value = raise (op_error "def already exists")

unfoldable pub define_new : String → Expr → Action (Unit {0})
define_new name value vm = put_new (frame_get name vm.env.frame) name value vm

unfoldable pub define : Expr → Expr → Action (Unit {0})
define name value =
    let name_tag = get_expr_tag name in
    if not (name_tag == "symbol") then raise (op_error ("def of " ++ name_tag)) else (do
      spend (size name + size value)
      key ← or_raise outside (text_of name)
      define_new key value)

unfoldable pub handle_stack_def : Action (Unit {0})
handle_stack_def = do need 2; name ← pop; value ← pop; define name value

-- The names of the parameters, up to the first cell that is no link with a head.
param_name : Expr → Result String
param_name p =
    if not (get_expr_tag p == "symbol")
    then err (op_error ("apply of non-symbol param " ++ get_expr_tag p))
    else elim (text_of p) [ none ↦ err outside | some name ↦ ok name ]

abbrev also : Result String → Result (List String) → Result (List String)
also (ok name) (ok names) = ok (name ∷ names)
also (ok name) (err e) = err e
also (err e) names = err e

unfoldable pub param_names : Slot → Result (List String)
unfolding param_name
param_names (here (link (here p) t)) =
    let names = also (param_name p) (param_names t) in
    if get_expr_builtin_tag (link (here p) t) == "link" then names else ok []
param_names _ = ok []

-- The sizes of the arguments; an IndexError where the stack is too short.
abbrev pub arguments_size : List String → List Expr → Result ℕ
arguments_size [] stack = ok 0
arguments_size (name ∷ names) [] = err index_error
arguments_size (name ∷ names) (e ∷ stack) = elim (arguments_size names stack) [
  | ok n ↦ ok (size e + n)
  | err x ↦ err x
]

abbrev pub reversed : List String → List String → List String
reversed [] done = done
reversed (name ∷ names) done = reversed names (name ∷ done)

-- The last parameter takes the top of the stack.
unfoldable pub take_arguments : List String → Env → Action Env
take_arguments [] env = pure env
take_arguments (name ∷ names) env = do
  need 1
  arg ← pop
  take_arguments names (record env { frame = (name, arg) ∷ env.frame })

abbrev pub parent_env : String → Env → Action Env
parent_env tag env =
    if tag == "dyn"
    then pure (record { frame = []; parents = env.frame ∷ env.parents })
    else if tag == "pure"
    then pure (record { frame = []; parents = [] })
    else raise outside

abbrev pub or_crash : Slot → Action Expr
or_crash missing = raise crash
or_crash (here e) = pure e

abbrev pub push_first : List Expr → Action (Unit {0})
push_first [] = pure tt
push_first (e ∷ rest) = push e

-- The body runs on a stack of its own; its top, where it has one, is the result.
unfoldable pub apply_function : (Expr → Action (Unit {0})) → Expr → Action (Unit {0})
apply_function run fn = do
  inner ← or_crash (head_of fn)
  env ← gets (λ vm. vm.env)
  apply_env ← parent_env (get_expr_tag fn) env
  names ← of_result (param_names (tail_of inner))
  cost ← gets (λ vm. arguments_size names vm.stack)
  n ← of_result cost
  spend n
  full_env ← take_arguments (reversed names []) apply_env
  body ← or_crash (head_of inner)
  (done, results) ← inside [] full_env (run body)
  push_first results

unfoldable pub handle_stack_apply : (Expr → Action (Unit {0})) → Action (Unit {0})
handle_stack_apply run = do
  need 1
  fn ← pop
  let tag = get_expr_tag fn
  if tag == "lex" || tag == "dyn" || tag == "pure"
      then apply_function run fn
      else raise (op_error ("apply of " ++ tag))

unfoldable pub handle_stack_if_with_result : (Expr → Action (Unit {0})) → Action (Unit {0})
handle_stack_if_with_result run = with_top (handle_stack_if run)

unfoldable pub handle_stack_rec_with_result : ℕ → (Expr → Action (Unit {0})) → Action (Unit {0})
handle_stack_rec_with_result fuel run = with_top (handle_stack_rec fuel run)

unfoldable pub handle_stack_def_with_result : Action (Unit {0})
handle_stack_def_with_result = with_nil handle_stack_def

unfoldable pub handle_stack_apply_with_result : (Expr → Action (Unit {0})) → Action (Unit {0})
handle_stack_apply_with_result run = with_top (handle_stack_apply run)
