-- ===== src/Machine/Operators/Sequence/Plain.antt =====
-- The operators that take and make sequences only.
use Prim.Native.String.{String, ◌++◌, ◌∷◌ as ◌then◌}
use text.Mathlib.Text.{◌==◌}
use lib_py.Base as B
use lib_py.Base.{
  ℕ, zero, suc, ◌+◌, Bool, not, ◌&&◌, ◌||◌, Option, none, some, List, [], ◌∷◌, length,
  if◌then◌else◌,
}
use lib_py.Base.Int.{pos}
use lib_py.Expression.Expr.{Expr, here, int, link, get_expr_tag, size}
use lib_py.Machine.Vm.{Action, op_error, crash, ◌>>=◌, ◌>>◌, raise, or_raise, push, pop, spend}
use lib_py.Machine.Operators.Result.{with_top}
use lib_py.Machine.Operators.Sequence.{
  elements, is_sequence, list_of, assemble, assemble_cost, elements_for,
}

-- A list costs its length, and bytes and texts the size of the result.
abbrev pub count_cost : String → ℕ → ℕ
count_cost tag n = if tag == "link" then n else size (int (pos n))

unfoldable pub handle_stack_count : Action (Unit {0})
handle_stack_count = do
  value ← pop
  es ← elements_for "count" value
  spend (count_cost (get_expr_tag value) (length es))
  push (int (pos (length es)))

abbrev pub reverse_onto : List Expr → List Expr → List Expr
reverse_onto [] done = done
reverse_onto (e ∷ es) done = reverse_onto es (e ∷ done)

unfoldable pub handle_stack_reverse : Action (Unit {0})
handle_stack_reverse = do
  value ← pop
  es ← elements_for "reverse" value
  spend (assemble_cost (get_expr_tag value) es)
  push (assemble (get_expr_tag value) (reverse_onto es []))

abbrev pub concat_exprs : Expr → Expr → Action (Unit {0})
concat_exprs a b = do
  let tag = get_expr_tag a
  x ← or_raise crash (elements a)
  y ← or_raise crash (elements b)
  spend (assemble_cost tag (B.◌++◌ x y))
  push (assemble tag (B.◌++◌ x y))

unfoldable pub handle_stack_concat : Action (Unit {0})
handle_stack_concat = do
  b ← pop
  a ← pop
  let a_tag = get_expr_tag a
  let b_tag = get_expr_tag b
  if a_tag == b_tag && is_sequence a_tag
      then concat_exprs a b
      else raise (op_error ("concatenation of " ++ a_tag ++ " and " ++ b_tag))

abbrev pub zipped : List Expr → List Expr → List Expr
zipped [] ys = []
zipped (a ∷ xs) [] = []
zipped (a ∷ xs) (b ∷ ys) = link (here a) (here b) ∷ zipped xs ys

-- The sizes of the parts of the pairs.
abbrev pub zipped_sizes : List Expr → List Expr → ℕ
zipped_sizes [] ys = 0
zipped_sizes (a ∷ xs) [] = 0
zipped_sizes (a ∷ xs) (b ∷ ys) = size a + size b + zipped_sizes xs ys

abbrev pub zip_exprs : Expr → Expr → Action (Unit {0})
zip_exprs a b = do
  x ← or_raise crash (elements a)
  y ← or_raise crash (elements b)
  spend (length (zipped x y))
  spend (zipped_sizes x y + length (zipped x y))
  push (list_of (zipped x y))

unfoldable pub handle_stack_zip : Action (Unit {0})
handle_stack_zip = do
  b ← pop
  a ← pop
  let a_tag = get_expr_tag a
  let b_tag = get_expr_tag b
  if is_sequence a_tag && is_sequence b_tag
      then zip_exprs a b
      else raise (op_error ("zip of " ++ a_tag ++ " and " ++ b_tag))

unfoldable pub handle_stack_count_with_result : Action (Unit {0})
handle_stack_count_with_result = with_top handle_stack_count

unfoldable pub handle_stack_reverse_with_result : Action (Unit {0})
handle_stack_reverse_with_result = with_top handle_stack_reverse

unfoldable pub handle_stack_concat_with_result : Action (Unit {0})
handle_stack_concat_with_result = with_top handle_stack_concat

unfoldable pub handle_stack_zip_with_result : Action (Unit {0})
handle_stack_zip_with_result = with_top handle_stack_zip
