-- ===== src/Machine/Operators/Comparison.antt =====
-- The comparisons: src/astreum/machine/operators/comparison.py. Floats are not modelled.
use Prim.Native.String.{String}
use text.Mathlib.Text.{◌==◌}
use lib_py.Base.{Bool, ◌&&◌, if◌then◌else◌}
use lib_py.Base.Int.{ℤ, ltb_ℤ, leb_ℤ}
use lib_py.Expression.Expr.{Expr, flag, get_expr_tag, get_int_from_expr, is_float_tag}
use lib_py.Machine.Vm.{Action, crash, outside, ◌>>=◌, pure, raise, or_raise, pop}
use lib_py.Machine.Operators.Result.{with_top}
use lib_py.Machine.Operators.Arithmetic.{of_and, push_result}

abbrev pub compared : (ℤ → ℤ → Bool) → String → Expr → Expr → Action Bool
compared predicate verb a b =
    let a_tag = get_expr_tag a in
    let b_tag = get_expr_tag b in
    if a_tag == "int" && b_tag == "int"
    then (do
      x ← or_raise crash (get_int_from_expr a)
      y ← or_raise crash (get_int_from_expr b)
      pure (predicate x y))
    else if is_float_tag a_tag && is_float_tag b_tag
    then raise outside
    else raise (of_and verb a_tag b_tag)

unfoldable pub compare_numbers : (ℤ → ℤ → Bool) → String → Action (Unit {0})
compare_numbers predicate verb = do
  b ← pop
  a ← pop
  result ← compared predicate verb a b
  push_result (flag result)

unfoldable pub handle_stack_less_than : Action (Unit {0})
handle_stack_less_than = compare_numbers (λ a b. ltb_ℤ a b) "less than"

unfoldable pub handle_stack_greater_than : Action (Unit {0})
handle_stack_greater_than = compare_numbers (λ a b. ltb_ℤ b a) "greater than"

unfoldable pub handle_stack_less_than_or_equal : Action (Unit {0})
handle_stack_less_than_or_equal = compare_numbers (λ a b. leb_ℤ a b) "less than or equal"

unfoldable pub handle_stack_greater_than_or_equal : Action (Unit {0})
handle_stack_greater_than_or_equal = compare_numbers (λ a b. leb_ℤ b a) "greater than or equal"

unfoldable pub handle_stack_less_than_with_result : Action (Unit {0})
handle_stack_less_than_with_result = with_top handle_stack_less_than

unfoldable pub handle_stack_greater_than_with_result : Action (Unit {0})
handle_stack_greater_than_with_result = with_top handle_stack_greater_than

unfoldable pub handle_stack_less_than_or_equal_with_result : Action (Unit {0})
handle_stack_less_than_or_equal_with_result = with_top handle_stack_less_than_or_equal

unfoldable pub handle_stack_greater_than_or_equal_with_result : Action (Unit {0})
handle_stack_greater_than_or_equal_with_result = with_top handle_stack_greater_than_or_equal
