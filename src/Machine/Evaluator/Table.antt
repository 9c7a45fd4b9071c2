-- ===== src/Machine/Evaluator/Table.antt =====
-- The choice of an operator by its name: src/astreum/machine/operators/main.py.
use Prim.Native.String.{String}
use text.Mathlib.Text.{◌==◌}
use lib_py.Base.{ℕ, List, [], ◌∷◌, if◌then◌else◌}
use lib_py.Expression.Expr.{Expr, nil}
use lib_py.Machine.Vm.{Action, outside, ◌>>◌, raise, push, spend}
use lib_py.Machine.Operators.Stack.{
  handle_stack_drop, handle_stack_dup, handle_stack_swap, handle_stack_rot, handle_stack_dip,
  handle_stack_drop_with_result, handle_stack_dup_with_result, handle_stack_swap_with_result,
  handle_stack_rot_with_result, handle_stack_dip_with_result,
}
use lib_py.Machine.Operators.Arithmetic.{
  handle_stack_add, handle_stack_sub, handle_stack_mul, handle_stack_div, handle_stack_mod,
  handle_stack_abs, handle_stack_add_with_result, handle_stack_sub_with_result,
  handle_stack_mul_with_result, handle_stack_div_with_result, handle_stack_mod_with_result,
  handle_stack_abs_with_result,
}
use lib_py.Machine.Operators.Bytes.{
  handle_stack_and, handle_stack_and_with_result, handle_stack_or, handle_stack_or_with_result,
  handle_stack_xor, handle_stack_xor_with_result, handle_stack_not, handle_stack_not_with_result,
  handle_stack_shift, handle_stack_shift_with_result,
}
use lib_py.Machine.Operators.Sequence.Plain.{
  handle_stack_count, handle_stack_count_with_result, handle_stack_reverse,
  handle_stack_reverse_with_result, handle_stack_concat, handle_stack_concat_with_result,
  handle_stack_zip, handle_stack_zip_with_result,
}
use lib_py.Machine.Operators.Sequence.Programs.{
  handle_stack_map, handle_stack_map_with_result, handle_stack_filter,
  handle_stack_filter_with_result, handle_stack_each, handle_stack_each_with_result,
  handle_stack_fold, handle_stack_fold_with_result, handle_stack_find,
  handle_stack_find_with_result,
}
use lib_py.Machine.Operators.Comparison.{
  handle_stack_less_than, handle_stack_greater_than, handle_stack_less_than_or_equal,
  handle_stack_greater_than_or_equal, handle_stack_less_than_with_result,
  handle_stack_greater_than_with_result, handle_stack_less_than_or_equal_with_result,
  handle_stack_greater_than_or_equal_with_result,
}
use lib_py.Machine.Operators.Expression.{
  handle_stack_link, handle_stack_head, handle_stack_tail, handle_stack_quote, handle_stack_eval,
  handle_stack_type, handle_stack_is, handle_stack_link_with_result, handle_stack_head_with_result,
  handle_stack_tail_with_result, handle_stack_quote_with_result, handle_stack_eval_with_result,
  handle_stack_type_with_result,
}
use lib_py.Machine.Operators.Tag.{
  handle_stack_ok, handle_stack_err, handle_stack_match, handle_stack_result,
}
use lib_py.Machine.Operators.Flow.{
  handle_stack_if, handle_stack_rec, handle_stack_def, handle_stack_apply,
  handle_stack_if_with_result, handle_stack_rec_with_result, handle_stack_def_with_result,
  handle_stack_apply_with_result,
}
use lib_py.Machine.Evaluator.Names.{is_blocked}

-- The modes "deterministic" and "dynamic".
pub data Mode : Type 0 where
  deterministic dynamic : Mode

abbrev pub Handler : Type 0
Handler = Action (Unit {0})

-- The branches on the name. `run` is `evaluation`.
unfoldable pub operator_table : ℕ → (Expr → Handler) → List (String × Handler)
operator_table fuel run =
    ("+", handle_stack_add)
    ∷ ("-", handle_stack_sub)
    ∷ ("*", handle_stack_mul)
    ∷ ("/", handle_stack_div)
    ∷ ("%", handle_stack_mod)
    ∷ ("abs", handle_stack_abs)
    ∷ ("apply", handle_stack_apply run)
    ∷ ("if", handle_stack_if run)
    ∷ ("rec", handle_stack_rec fuel run)
    ∷ ("def", handle_stack_def)
    ∷ ("link", handle_stack_link)
    ∷ ("head", handle_stack_head)
    ∷ ("tail", handle_stack_tail)
    ∷ ("eval", handle_stack_eval run)
    ∷ ("<", handle_stack_less_than)
    ∷ (">", handle_stack_greater_than)
    ∷ ("<=", handle_stack_less_than_or_equal)
    ∷ (">=", handle_stack_greater_than_or_equal)
    ∷ ("drop", handle_stack_drop)
    ∷ ("dup", handle_stack_dup)
    ∷ ("swap", handle_stack_swap)
    ∷ ("rot", handle_stack_rot)
    ∷ ("dip", handle_stack_dip run)
    ∷ ("quote", handle_stack_quote)
    ∷ ("type", handle_stack_type)
    ∷ ("ok", handle_stack_ok)
    ∷ ("err", handle_stack_err)
    ∷ ("result", handle_stack_result run)
    ∷ ("match", handle_stack_match run)
    ∷ ("is", handle_stack_is)
    ∷ ("+?", handle_stack_add_with_result)
    ∷ ("-?", handle_stack_sub_with_result)
    ∷ ("*?", handle_stack_mul_with_result)
    ∷ ("/?", handle_stack_div_with_result)
    ∷ ("%?", handle_stack_mod_with_result)
    ∷ ("abs?", handle_stack_abs_with_result)
    ∷ ("<?", handle_stack_less_than_with_result)
    ∷ (">?", handle_stack_greater_than_with_result)
    ∷ ("<=?", handle_stack_less_than_or_equal_with_result)
    ∷ (">=?", handle_stack_greater_than_or_equal_with_result)
    ∷ ("link?", handle_stack_link_with_result)
    ∷ ("head?", handle_stack_head_with_result)
    ∷ ("tail?", handle_stack_tail_with_result)
    ∷ ("dup?", handle_stack_dup_with_result)
    ∷ ("swap?", handle_stack_swap_with_result)
    ∷ ("rot?", handle_stack_rot_with_result)
    ∷ ("drop?", handle_stack_drop_with_result)
    ∷ ("quote?", handle_stack_quote_with_result)
    ∷ ("type?", handle_stack_type_with_result)
    ∷ ("def?", handle_stack_def_with_result)
    ∷ ("rec?", handle_stack_rec_with_result fuel run)
    ∷ ("if?", handle_stack_if_with_result run)
    ∷ ("dip?", handle_stack_dip_with_result run)
    ∷ ("eval?", handle_stack_eval_with_result run)
    ∷ ("apply?", handle_stack_apply_with_result run)
    ∷ ("&", handle_stack_and)
    ∷ ("&?", handle_stack_and_with_result)
    ∷ ("|", handle_stack_or)
    ∷ ("|?", handle_stack_or_with_result)
    ∷ ("^", handle_stack_xor)
    ∷ ("^?", handle_stack_xor_with_result)
    ∷ ("~", handle_stack_not)
    ∷ ("~?", handle_stack_not_with_result)
    ∷ ("<<", handle_stack_shift)
    ∷ ("<<?", handle_stack_shift_with_result)
    ∷ ("map", handle_stack_map run)
    ∷ ("map?", handle_stack_map_with_result run)
    ∷ ("filter", handle_stack_filter run)
    ∷ ("filter?", handle_stack_filter_with_result run)
    ∷ ("each", handle_stack_each run)
    ∷ ("each?", handle_stack_each_with_result run)
    ∷ ("fold", handle_stack_fold run)
    ∷ ("fold?", handle_stack_fold_with_result run)
    ∷ ("find", handle_stack_find run)
    ∷ ("find?", handle_stack_find_with_result run)
    ∷ ("count", handle_stack_count)
    ∷ ("count?", handle_stack_count_with_result)
    ∷ ("reverse", handle_stack_reverse)
    ∷ ("reverse?", handle_stack_reverse_with_result)
    ∷ ("concat", handle_stack_concat)
    ∷ ("concat?", handle_stack_concat_with_result)
    ∷ ("zip", handle_stack_zip)
    ∷ ("zip?", handle_stack_zip_with_result)
    ∷ []

-- The handler of a name; the operators that the table does not hold are not modelled.
unfoldable pub find_handler : String → List (String × Handler) → Handler
find_handler name [] = raise outside
find_handler name ((key, handler) ∷ rest) =
    let other = find_handler name rest in if key == name then handler else other

unfoldable pub apply_operator : Mode → ℕ → (Expr → Handler) → String → Handler
apply_operator deterministic fuel run name =
    if is_blocked name then (do spend 1; push nil) else find_handler name (operator_table fuel run)
apply_operator dynamic fuel run name = find_handler name (operator_table fuel run)
