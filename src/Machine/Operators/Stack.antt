-- ===== src/Machine/Operators/Stack.antt =====
-- The operators on the stack: src/astreum/machine/operators/stack.
pub mod Order
use lib_py.Expression.Expr.{Expr, size}
use lib_py.Machine.Vm.{Action, next, ◌>>=◌, ◌>>◌, push, pop, spend, need}
use lib_py.Machine.Operators.Result.{with_top, with_nil}

unfoldable pub handle_stack_drop : Action (Unit {0})
handle_stack_drop = do need 1; v ← pop; spend 1

unfoldable pub handle_stack_dup : Action (Unit {0})
handle_stack_dup = do need 1; v ← pop; spend (size v); push v; push v

unfoldable pub handle_stack_swap : Action (Unit {0})
handle_stack_swap = do need 2; b ← pop; a ← pop; spend 1; push b; push a

unfoldable pub handle_stack_rot : Action (Unit {0})
handle_stack_rot = do need 3; c ← pop; b ← pop; a ← pop; spend 3; push b; push c; push a

-- `run` is `evaluation`.
unfoldable pub handle_stack_dip : (Expr → Action (Unit {0})) → Action (Unit {0})
handle_stack_dip run = do need 2; e ← pop; value ← pop; spend (size e); run e; push value

unfoldable pub handle_stack_drop_with_result : Action (Unit {0})
handle_stack_drop_with_result = with_nil handle_stack_drop

unfoldable pub handle_stack_dup_with_result : Action (Unit {0})
handle_stack_dup_with_result = with_top handle_stack_dup

unfoldable pub handle_stack_swap_with_result : Action (Unit {0})
handle_stack_swap_with_result = with_top handle_stack_swap

unfoldable pub handle_stack_rot_with_result : Action (Unit {0})
handle_stack_rot_with_result = with_top handle_stack_rot

unfoldable pub handle_stack_dip_with_result : (Expr → Action (Unit {0})) → Action (Unit {0})
handle_stack_dip_with_result run = with_top (handle_stack_dip run)
