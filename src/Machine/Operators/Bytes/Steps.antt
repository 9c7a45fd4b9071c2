-- ===== src/Machine/Operators/Bytes/Steps.antt =====
-- What the operators on bytes do to the meter and the environment.
use lib_py.Base.{zero, suc}
use lib_py.Base.Int.{ℤ, pos, negsuc}
use lib_py.Expression.Expr.{Expr, symbol, bytes, int, str, nil, link}
use lib_py.Machine.Vm.{crash}
use lib_py.Machine.Vm.Steps.{Keeps, raise-Keeps, keep_rules}
use lib_py.Machine.Operators.Steps.{with_top-Keeps}
use lib_py.Machine.Operators.Bytes.{
  shift_by, handle_stack_and, handle_stack_and_with_result, handle_stack_or,
  handle_stack_or_with_result, handle_stack_xor, handle_stack_xor_with_result, handle_stack_not,
  handle_stack_not_with_result, handle_stack_shift, handle_stack_shift_with_result,
}

shift_by-Keeps : (k : ℤ) (e : Expr) → Keeps (shift_by k e)
shift_by-Keeps (pos zero) e = search (keep_rules) depth 10
shift_by-Keeps (pos (suc n)) (bytes x) = search (keep_rules) depth 10
shift_by-Keeps (pos (suc n)) (int v) = search (keep_rules) depth 10
shift_by-Keeps (pos (suc n)) (symbol s) = raise-Keeps crash
shift_by-Keeps (pos (suc n)) (str s) = raise-Keeps crash
shift_by-Keeps (pos (suc n)) nil = raise-Keeps crash
shift_by-Keeps (pos (suc n)) (link h t) = raise-Keeps crash
shift_by-Keeps (negsuc n) (bytes x) = search (keep_rules) depth 10
shift_by-Keeps (negsuc n) (int v) = search (keep_rules) depth 10
shift_by-Keeps (negsuc n) (symbol s) = raise-Keeps crash
shift_by-Keeps (negsuc n) (str s) = raise-Keeps crash
shift_by-Keeps (negsuc n) nil = raise-Keeps crash
shift_by-Keeps (negsuc n) (link h t) = raise-Keeps crash

pub handle_stack_and-Keeps : Keeps handle_stack_and
unfolding handle_stack_and
handle_stack_and-Keeps = search (keep_rules) depth 40

pub handle_stack_and_with_result-Keeps : Keeps handle_stack_and_with_result
unfolding handle_stack_and_with_result
handle_stack_and_with_result-Keeps = with_top-Keeps handle_stack_and-Keeps

pub handle_stack_or-Keeps : Keeps handle_stack_or
unfolding handle_stack_or
handle_stack_or-Keeps = search (keep_rules) depth 40

pub handle_stack_or_with_result-Keeps : Keeps handle_stack_or_with_result
unfolding handle_stack_or_with_result
handle_stack_or_with_result-Keeps = with_top-Keeps handle_stack_or-Keeps

pub handle_stack_xor-Keeps : Keeps handle_stack_xor
unfolding handle_stack_xor
handle_stack_xor-Keeps = search (keep_rules) depth 40

pub handle_stack_xor_with_result-Keeps : Keeps handle_stack_xor_with_result
unfolding handle_stack_xor_with_result
handle_stack_xor_with_result-Keeps = with_top-Keeps handle_stack_xor-Keeps

pub handle_stack_not-Keeps : Keeps handle_stack_not
unfolding handle_stack_not
handle_stack_not-Keeps = search (keep_rules) depth 40

pub handle_stack_not_with_result-Keeps : Keeps handle_stack_not_with_result
unfolding handle_stack_not_with_result
handle_stack_not_with_result-Keeps = with_top-Keeps handle_stack_not-Keeps

pub handle_stack_shift-Keeps : Keeps handle_stack_shift
unfolding handle_stack_shift
handle_stack_shift-Keeps = search (keep_rules, shift_by-Keeps) depth 40

pub handle_stack_shift_with_result-Keeps : Keeps handle_stack_shift_with_result
unfolding handle_stack_shift_with_result
handle_stack_shift_with_result-Keeps = with_top-Keeps handle_stack_shift-Keeps
