-- ===== src/Machine/Operators/Sequence/Programs.antt =====
-- The operators that run a program on each element.
use Prim.Native.String.{String, ◌++◌, ◌∷◌ as ◌then◌}
use text.Mathlib.Text.{◌==◌}
use lib_py.Base as B
use lib_py.Base.{
  ℕ, zero, suc, ◌+◌, Bool, not, ◌&&◌, ◌||◌, Option, none, some, List, [], ◌∷◌, length,
  if◌then◌else◌,
}
use lib_py.Expression.Expr.{Expr, here, symbol, bytes, str, nil, link, get_expr_tag, size}
use lib_py.Machine.Vm.{
  Action, op_error, crash, ◌>>=◌, ◌>>◌, pure, raise, of_result, gets, push, pop, spend,
}
use lib_py.Machine.Operators.Result.{with_top}
use lib_py.Machine.Operators.Flow.{is_truthy}
use lib_py.Machine.Operators.Sequence.{
  elements, is_sequence, sizes, assemble, assemble_cost, run_step, step_for, elements_for,
}

-- The value that `map` takes from a result, of the kind of the sequence.
abbrev pub has_value : Expr → Bool
has_value (bytes b) = B.true
has_value (str s) = B.true
has_value e = B.false

abbrev pub check_kind : String → Expr → Action (Unit {0})
check_kind tag r =
    if tag == "link"
    then pure tt
    else if not (get_expr_tag r == tag)
    then raise (op_error ("map fn produced " ++ get_expr_tag r ++ ", expected " ++ tag))
    else if has_value r
    then pure tt
    else raise crash

unfoldable pub map_elems :
    (Expr → Action (Unit {0})) → Expr → String → List Expr → Action (List Expr)
map_elems run fn tag [] = pure []
map_elems run fn tag (e ∷ es) = do
  spend (size e)
  r ← run_step run fn (e ∷ [])
  check_kind tag r
  rs ← map_elems run fn tag es
  pure (r ∷ rs)

unfoldable pub handle_stack_map : (Expr → Action (Unit {0})) → Action (Unit {0})
handle_stack_map run = do
  fn ← pop
  value ← pop
  step_for fn
  es ← elements_for "map" value
  rs ← map_elems run fn (get_expr_tag value) es
  spend (assemble_cost (get_expr_tag value) rs)
  push (assemble (get_expr_tag value) rs)

abbrev pub keep_if : Bool → Expr → List Expr → List Expr
keep_if b e es = if b then e ∷ es else es

unfoldable pub filter_elems : (Expr → Action (Unit {0})) → Expr → List Expr → Action (List Expr)
filter_elems run fn [] = pure []
filter_elems run fn (e ∷ es) = do
  spend (size e)
  r ← run_step run fn (e ∷ [])
  truthy ← of_result (is_truthy r)
  rs ← filter_elems run fn es
  pure (keep_if truthy e rs)

unfoldable pub handle_stack_filter : (Expr → Action (Unit {0})) → Action (Unit {0})
handle_stack_filter run = do
  fn ← pop
  value ← pop
  step_for fn
  es ← elements_for "filter" value
  rs ← filter_elems run fn es
  spend (assemble_cost (get_expr_tag value) rs)
  push (assemble (get_expr_tag value) rs)

unfoldable pub each_elem : (Expr → Action (Unit {0})) → Expr → List Expr → Action (Unit {0})
each_elem run fn [] = pure tt
each_elem run fn (e ∷ es) = do spend (size e); r ← run_step run fn (e ∷ []); each_elem run fn es

-- `each` and `fold` charge bytes and texts xs a whole, beside each element.
abbrev pub spend_whole : String → List Expr → Action (Unit {0})
spend_whole tag es = if tag == "link" then pure tt else spend (sizes es)

unfoldable pub handle_stack_each : (Expr → Action (Unit {0})) → Action (Unit {0})
handle_stack_each run = do
  fn ← pop
  value ← pop
  step_for fn
  es ← elements_for "each" value
  spend_whole (get_expr_tag value) es
  each_elem run fn es
  push value

unfoldable pub fold_elems : (Expr → Action (Unit {0})) → Expr → List Expr → Expr → Action Expr
fold_elems run fn [] acc = pure acc
fold_elems run fn (e ∷ es) acc = do
  spend (size e)
  r ← run_step run fn (e ∷ acc ∷ [])
  fold_elems run fn es r

abbrev pub spend_unless_empty : String → List Expr → Action (Unit {0})
spend_unless_empty tag [] = pure tt
spend_unless_empty tag (e ∷ es) = spend_whole tag (e ∷ es)

abbrev pub some_or_empty : Option (List Expr) → List Expr
some_or_empty none = []
some_or_empty (some es) = es

-- A link that has the tag "bytes" or "str" has the value None, which `fold` takes for empty.
abbrev pub elements_of_fold : Expr → Action (List Expr)
elements_of_fold value =
    let tag = get_expr_tag value in
    if is_sequence tag
    then (do es ← gets (λ vm. elements value); pure (some_or_empty es))
    else raise (op_error ("fold of " ++ tag))

unfoldable pub handle_stack_fold : (Expr → Action (Unit {0})) → Action (Unit {0})
handle_stack_fold run = do
  fn ← pop
  acc ← pop
  value ← pop
  spend (size acc)
  step_for fn
  es ← elements_of_fold value
  spend_unless_empty (get_expr_tag value) es
  r ← fold_elems run fn es acc
  push r

abbrev pub not_found : Expr
not_found = link (here (str "not found")) (here (symbol "none"))

-- The first element that the program accepts, with the tag "some".
unfoldable pub find_elem : (Expr → Action (Unit {0})) → Expr → List Expr → Action Expr
find_elem run fn [] = pure not_found
find_elem run fn (e ∷ es) = do
  spend (size e)
  r ← run_step run fn (e ∷ [])
  truthy ← of_result (is_truthy r)
  if truthy
      then (do spend (size e); pure (link (here e) (here (symbol "some"))))
      else find_elem run fn es

abbrev pub find_in : (Expr → Action (Unit {0})) → Expr → Expr → Action (Unit {0})
find_in run fn nil = push not_found
find_in run fn value = do
  step_for fn
  es ← elements_for "find" value
  r ← find_elem run fn es
  push r

unfoldable pub handle_stack_find : (Expr → Action (Unit {0})) → Action (Unit {0})
handle_stack_find run = do fn ← pop; value ← pop; find_in run fn value

unfoldable pub handle_stack_map_with_result : (Expr → Action (Unit {0})) → Action (Unit {0})
handle_stack_map_with_result run = with_top (handle_stack_map run)

unfoldable pub handle_stack_filter_with_result : (Expr → Action (Unit {0})) → Action (Unit {0})
handle_stack_filter_with_result run = with_top (handle_stack_filter run)

unfoldable pub handle_stack_each_with_result : (Expr → Action (Unit {0})) → Action (Unit {0})
handle_stack_each_with_result run = with_top (handle_stack_each run)

unfoldable pub handle_stack_fold_with_result : (Expr → Action (Unit {0})) → Action (Unit {0})
handle_stack_fold_with_result run = with_top (handle_stack_fold run)

unfoldable pub handle_stack_find_with_result : (Expr → Action (Unit {0})) → Action (Unit {0})
handle_stack_find_with_result run = with_top (handle_stack_find run)
