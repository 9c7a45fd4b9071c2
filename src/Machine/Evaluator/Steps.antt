-- ===== src/Machine/Evaluator/Steps.antt =====
-- What an evaluation does to the meter and the environment: see Vm/Steps.
use Prim.Native.String.{String}
use text.Mathlib.Text.{◌==◌}
use lib_py.Base.{ℕ, zero, suc, Option, none, some, List, [], ◌∷◌}
use lib_py.Expression.Expr.{Expr, Slot, missing, here, symbol, bytes, int, str, nil, link}
use lib_py.Machine.Vm.{
  Vm, Result, ok, err, op_error, index_error, meter_exceeded, crash, outside, no_fuel,
}
use lib_py.Machine.Vm.Steps.{
  Step, trans-Step, Keeps, bind-Keeps, push-Keeps, raise-Keeps, pure-Keeps, keep_rules,
  charge-Keeps, if-Keeps,
}
use lib_py.Machine.Operators.Flow.{
  handle_stack_def_with_result, handle_stack_apply_with_result, handle_stack_rec_with_result,
  handle_stack_if_with_result,
}
use lib_py.Machine.Operators.Stack.{handle_stack_dip_with_result}
use lib_py.Machine.Operators.Expression.{handle_stack_eval_with_result}
use lib_py.Machine.Operators.Steps.{
  with_top-Keeps, with_nil-Keeps, handle_stack_drop-Keeps, handle_stack_drop_with_result-Keeps,
  handle_stack_dup-Keeps, handle_stack_dup_with_result-Keeps, handle_stack_swap-Keeps,
  handle_stack_swap_with_result-Keeps, handle_stack_rot-Keeps, handle_stack_rot_with_result-Keeps,
  handle_stack_add-Keeps, handle_stack_add_with_result-Keeps, handle_stack_sub-Keeps,
  handle_stack_sub_with_result-Keeps, handle_stack_mul-Keeps, handle_stack_mul_with_result-Keeps,
  handle_stack_div-Keeps, handle_stack_div_with_result-Keeps, handle_stack_mod-Keeps,
  handle_stack_mod_with_result-Keeps, handle_stack_abs-Keeps, handle_stack_abs_with_result-Keeps,
  handle_stack_less_than-Keeps, handle_stack_less_than_with_result-Keeps,
  handle_stack_greater_than-Keeps, handle_stack_greater_than_with_result-Keeps,
  handle_stack_less_than_or_equal-Keeps, handle_stack_less_than_or_equal_with_result-Keeps,
  handle_stack_greater_than_or_equal-Keeps, handle_stack_greater_than_or_equal_with_result-Keeps,
  handle_stack_link-Keeps, handle_stack_link_with_result-Keeps, handle_stack_head-Keeps,
  handle_stack_head_with_result-Keeps, handle_stack_tail-Keeps, handle_stack_tail_with_result-Keeps,
  handle_stack_quote-Keeps, handle_stack_quote_with_result-Keeps, handle_stack_type-Keeps,
  handle_stack_type_with_result-Keeps,
}
use lib_py.Machine.Operators.Bytes.Steps.{
  handle_stack_and-Keeps, handle_stack_and_with_result-Keeps, handle_stack_or-Keeps,
  handle_stack_or_with_result-Keeps, handle_stack_xor-Keeps, handle_stack_xor_with_result-Keeps,
  handle_stack_not-Keeps, handle_stack_not_with_result-Keeps, handle_stack_shift-Keeps,
  handle_stack_shift_with_result-Keeps,
}
use lib_py.Machine.Operators.Sequence.Programs.{
  handle_stack_map_with_result, handle_stack_filter_with_result, handle_stack_each_with_result,
  handle_stack_fold_with_result, handle_stack_find_with_result,
}
use lib_py.Machine.Operators.Sequence.Steps.{
  handle_stack_map-Keeps, handle_stack_filter-Keeps, handle_stack_each-Keeps,
  handle_stack_fold-Keeps, handle_stack_find-Keeps, handle_stack_count-Keeps,
  handle_stack_count_with_result-Keeps, handle_stack_reverse-Keeps,
  handle_stack_reverse_with_result-Keeps, handle_stack_concat-Keeps,
  handle_stack_concat_with_result-Keeps, handle_stack_zip-Keeps, handle_stack_zip_with_result-Keeps,
}
use lib_py.Machine.Operators.Steps.Flow.{
  handle_stack_is-Keeps, handle_stack_ok-Keeps, handle_stack_err-Keeps, handle_stack_def-Keeps,
  handle_stack_dip-Keeps, handle_stack_eval-Keeps, handle_stack_match-Keeps,
  handle_stack_result-Keeps, handle_stack_if-Keeps, handle_stack_rec-Keeps,
  handle_stack_apply-Keeps,
}
use lib_py.Machine.Evaluator.Table.{
  Mode, deterministic, dynamic, Handler, operator_table, find_handler, apply_operator,
}
use lib_py.Machine.Evaluator.{
  recovered, guarded, push_bound, evaluate_symbol, evaluate_dynamic, evaluate_quotation,
  quoted_head, run_slot, evaluate_expr, evaluation,
}

recovered-Keeps : (vm : Vm) (r : Result (Unit {0}) × Vm) → Step vm r.1 → Step vm (recovered r).1
recovered-Keeps vm (err (op_error message), vm') h =
    trans-Step h ((bind-Keeps (charge-Keeps 1) (λ u. push-Keeps nil)).step vm')
recovered-Keeps vm (err index_error, vm') h =
    trans-Step h ((bind-Keeps (charge-Keeps 1) (λ u. push-Keeps nil)).step vm')
recovered-Keeps vm (ok u, vm') h = h
recovered-Keeps vm (err meter_exceeded, vm') h = h
recovered-Keeps vm (err crash, vm') h = h
recovered-Keeps vm (err outside, vm') h = h
recovered-Keeps vm (err no_fuel, vm') h = h

guarded-Keeps : {handler : Handler} → Keeps handler → Keeps (guarded handler)
unfolding guarded
guarded-Keeps {handler} keeps = record {
  step = λ vm. recovered-Keeps vm (handler vm) (keeps.step vm);
}

-- Each handler of a table keeps to the steps.
abbrev AllKeep : List (String × Handler) → Type 0
AllKeep [] = Unit
AllKeep ((key, handler) ∷ rest) = Keeps handler × AllKeep rest

find_handler-Keeps :
    (name : String) (table : List (String × Handler))
    → AllKeep table
    → Keeps (find_handler name table)
unfolding find_handler
find_handler-Keeps name [] h = raise-Keeps outside
find_handler-Keeps name ((key, handler) ∷ rest) h =
    if-Keeps (key == name) h.0 (find_handler-Keeps name rest h.1)

push_bound-Keeps : (name : String) (o : Option Expr) → Keeps (push_bound name o)
unfolding push_bound
push_bound-Keeps name none = search (keep_rules) depth 10
push_bound-Keeps name (some e) = search (keep_rules) depth 10

quoted_head-Keeps : (s : Slot) → Keeps (quoted_head s)
quoted_head-Keeps missing = raise-Keeps crash
quoted_head-Keeps (here e) = search (keep_rules) depth 10

evaluate_quotation-Keeps : (s : Slot) → Keeps (evaluate_quotation s)
unfolding evaluate_quotation
evaluate_quotation-Keeps missing = search (keep_rules) depth 10
evaluate_quotation-Keeps (here nil) = search (keep_rules) depth 10
evaluate_quotation-Keeps (here (symbol s)) = quoted_head-Keeps _
evaluate_quotation-Keeps (here (bytes b)) = quoted_head-Keeps _
evaluate_quotation-Keeps (here (int v)) = quoted_head-Keeps _
evaluate_quotation-Keeps (here (str s)) = quoted_head-Keeps _
evaluate_quotation-Keeps (here (link h t)) = quoted_head-Keeps _

infixr 4 ◌&◌
abbrev ◌&◌ : {A B : Type 0} → A → B → A × B
a & b = (a, b)

module _ (fuel : ℕ) (run : Expr → Handler) (runs : (e : Expr) → Keeps (run e)) where
  operator_table-AllKeep : AllKeep (operator_table fuel run)
  unfolding operator_table handle_stack_def_with_result handle_stack_apply_with_result
      handle_stack_rec_with_result handle_stack_if_with_result handle_stack_dip_with_result
      handle_stack_eval_with_result handle_stack_map_with_result handle_stack_filter_with_result
      handle_stack_each_with_result handle_stack_fold_with_result handle_stack_find_with_result
  operator_table-AllKeep =
      handle_stack_add-Keeps
      & handle_stack_sub-Keeps
      & handle_stack_mul-Keeps
      & handle_stack_div-Keeps
      & handle_stack_mod-Keeps
      & handle_stack_abs-Keeps
      & handle_stack_apply-Keeps run runs
      & handle_stack_if-Keeps run runs
      & handle_stack_rec-Keeps run runs fuel
      & handle_stack_def-Keeps
      & handle_stack_link-Keeps
      & handle_stack_head-Keeps
      & handle_stack_tail-Keeps
      & handle_stack_eval-Keeps run runs
      & handle_stack_less_than-Keeps
      & handle_stack_greater_than-Keeps
      & handle_stack_less_than_or_equal-Keeps
      & handle_stack_greater_than_or_equal-Keeps
      & handle_stack_drop-Keeps
      & handle_stack_dup-Keeps
      & handle_stack_swap-Keeps
      & handle_stack_rot-Keeps
      & handle_stack_dip-Keeps run runs
      & handle_stack_quote-Keeps
      & handle_stack_type-Keeps
      & handle_stack_ok-Keeps
      & handle_stack_err-Keeps
      & handle_stack_result-Keeps run runs
      & handle_stack_match-Keeps run runs
      & handle_stack_is-Keeps
      & handle_stack_add_with_result-Keeps
      & handle_stack_sub_with_result-Keeps
      & handle_stack_mul_with_result-Keeps
      & handle_stack_div_with_result-Keeps
      & handle_stack_mod_with_result-Keeps
      & handle_stack_abs_with_result-Keeps
      & handle_stack_less_than_with_result-Keeps
      & handle_stack_greater_than_with_result-Keeps
      & handle_stack_less_than_or_equal_with_result-Keeps
      & handle_stack_greater_than_or_equal_with_result-Keeps
      & handle_stack_link_with_result-Keeps
      & handle_stack_head_with_result-Keeps
      & handle_stack_tail_with_result-Keeps
      & handle_stack_dup_with_result-Keeps
      & handle_stack_swap_with_result-Keeps
      & handle_stack_rot_with_result-Keeps
      & handle_stack_drop_with_result-Keeps
      & handle_stack_quote_with_result-Keeps
      & handle_stack_type_with_result-Keeps
      & with_nil-Keeps handle_stack_def-Keeps
      & with_top-Keeps (handle_stack_rec-Keeps run runs fuel)
      & with_top-Keeps (handle_stack_if-Keeps run runs)
      & with_top-Keeps (handle_stack_dip-Keeps run runs)
      & with_top-Keeps (handle_stack_eval-Keeps run runs)
      & with_top-Keeps (handle_stack_apply-Keeps run runs)
      & handle_stack_and-Keeps
      & handle_stack_and_with_result-Keeps
      & handle_stack_or-Keeps
      & handle_stack_or_with_result-Keeps
      & handle_stack_xor-Keeps
      & handle_stack_xor_with_result-Keeps
      & handle_stack_not-Keeps
      & handle_stack_not_with_result-Keeps
      & handle_stack_shift-Keeps
      & handle_stack_shift_with_result-Keeps
      & handle_stack_map-Keeps run runs
      & with_top-Keeps (handle_stack_map-Keeps run runs)
      & handle_stack_filter-Keeps run runs
      & with_top-Keeps (handle_stack_filter-Keeps run runs)
      & handle_stack_each-Keeps run runs
      & with_top-Keeps (handle_stack_each-Keeps run runs)
      & handle_stack_fold-Keeps run runs
      & with_top-Keeps (handle_stack_fold-Keeps run runs)
      & handle_stack_find-Keeps run runs
      & with_top-Keeps (handle_stack_find-Keeps run runs)
      & handle_stack_count-Keeps
      & handle_stack_count_with_result-Keeps
      & handle_stack_reverse-Keeps
      & handle_stack_reverse_with_result-Keeps
      & handle_stack_concat-Keeps
      & handle_stack_concat_with_result-Keeps
      & handle_stack_zip-Keeps
      & handle_stack_zip_with_result-Keeps
      & tt

  apply_operator-Keeps : (mode : Mode) (name : String) → Keeps (apply_operator mode fuel run name)
  unfolding apply_operator
  apply_operator-Keeps deterministic name =
      let found = find_handler-Keeps name _ operator_table-AllKeep in search (keep_rules) depth 10
  apply_operator-Keeps dynamic name = find_handler-Keeps name _ operator_table-AllKeep

  evaluate_dynamic-Keeps :
      (name : String) (o : Option Expr) → Keeps (evaluate_dynamic fuel run name o)
  evaluate_dynamic-Keeps name none =
      if-Keeps _ (guarded-Keeps (apply_operator-Keeps dynamic name)) (push_bound-Keeps name none)
  evaluate_dynamic-Keeps name (some e) =
      search (keep_rules, runs, guarded-Keeps, push_bound-Keeps) depth 10

  evaluate_symbol-Keeps : (mode : Mode) (name : String) → Keeps (evaluate_symbol mode fuel run name)
  unfolding evaluate_symbol
  evaluate_symbol-Keeps deterministic name =
      search (keep_rules, guarded-Keeps, apply_operator-Keeps, push_bound-Keeps) depth 10
  evaluate_symbol-Keeps dynamic name = search (keep_rules, evaluate_dynamic-Keeps) depth 10

  run_slot-Keeps : (s : Slot) → Keeps (run_slot run s)
  run_slot-Keeps missing = pure-Keeps tt
  run_slot-Keeps (here e) = runs e

  evaluate_expr-Keeps : (mode : Mode) (e : Expr) → Keeps (evaluate_expr mode fuel run e)
  unfolding evaluate_expr
  evaluate_expr-Keeps mode (symbol name) = evaluate_symbol-Keeps mode name
  evaluate_expr-Keeps mode (link h t) =
      search (keep_rules, evaluate_quotation-Keeps, run_slot-Keeps) depth 20
  evaluate_expr-Keeps mode nil = pure-Keeps tt
  evaluate_expr-Keeps mode (bytes b) = search (keep_rules) depth 10
  evaluate_expr-Keeps mode (int v) = search (keep_rules) depth 10
  evaluate_expr-Keeps mode (str s) = search (keep_rules) depth 10

pub evaluation-Keeps : (mode : Mode) (fuel : ℕ) (e : Expr) → Keeps (evaluation mode fuel e)
unfolding evaluation
evaluation-Keeps mode zero e = raise-Keeps no_fuel
evaluation-Keeps mode (suc fuel) e =
    evaluate_expr-Keeps fuel (evaluation mode fuel) (evaluation-Keeps mode fuel) mode e
