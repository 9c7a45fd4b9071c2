-- ===== src/Machine/Operators/Steps.antt =====
-- What the operators do to the meter and the environment: see Vm/Steps.
pub mod Flow
use lib_py.Machine.Vm.{
  Vm, Result, ok, err, op_error, index_error, meter_exceeded, crash, outside, no_fuel, Action,
}
use lib_py.Machine.Vm.Steps.{Step, trans-Step, Keeps, bind-Keeps, push-Keeps, keep_rules}
use lib_py.Machine.Operators.Result.{caught, with_top, with_nil}
use lib_py.Machine.Operators.Stack.{
  handle_stack_drop, handle_stack_drop_with_result, handle_stack_dup, handle_stack_dup_with_result,
  handle_stack_swap, handle_stack_swap_with_result, handle_stack_rot, handle_stack_rot_with_result,
}
use lib_py.Machine.Operators.Arithmetic.{
  handle_stack_add, handle_stack_add_with_result, handle_stack_sub, handle_stack_sub_with_result,
  handle_stack_mul, handle_stack_mul_with_result, handle_stack_div, handle_stack_div_with_result,
  handle_stack_mod, handle_stack_mod_with_result, handle_stack_abs, handle_stack_abs_with_result,
  on_numbers, divided, absolute,
}
use lib_py.Machine.Operators.Comparison.{
  handle_stack_less_than, handle_stack_less_than_with_result, handle_stack_greater_than,
  handle_stack_greater_than_with_result, handle_stack_less_than_or_equal,
  handle_stack_less_than_or_equal_with_result, handle_stack_greater_than_or_equal,
  handle_stack_greater_than_or_equal_with_result, compare_numbers,
}
use lib_py.Machine.Operators.Expression.{
  handle_stack_link, handle_stack_link_with_result, handle_stack_head,
  handle_stack_head_with_result, handle_stack_tail, handle_stack_tail_with_result,
  handle_stack_quote, handle_stack_quote_with_result, handle_stack_type,
  handle_stack_type_with_result,
}

-- The handler of an error goes on from the state that the error left.
caught-Keeps : (vm : Vm) (r : Result (Unit {0}) × Vm) → Step vm r.1 → Step vm (caught r).1
caught-Keeps vm (err (op_error message), vm') h = trans-Step h ((push-Keeps _).step vm')
caught-Keeps vm (err index_error, vm') h = trans-Step h ((push-Keeps _).step vm')
caught-Keeps vm (ok u, vm') h = h
caught-Keeps vm (err meter_exceeded, vm') h = h
caught-Keeps vm (err crash, vm') h = h
caught-Keeps vm (err outside, vm') h = h
caught-Keeps vm (err no_fuel, vm') h = h

module _ {handler : Action (Unit {0})} (keeps : Keeps handler) where
  pub with_top-Keeps : Keeps (with_top handler)
  unfolding with_top
  with_top-Keeps =
      let k = bind-Keeps keeps (λ u. search (keep_rules) depth 20) in
      record { step = λ vm. caught-Keeps vm _ (k.step vm) }

  pub with_nil-Keeps : Keeps (with_nil handler)
  unfolding with_nil
  with_nil-Keeps =
      let k = bind-Keeps keeps (λ u. search (keep_rules) depth 20) in
      record { step = λ vm. caught-Keeps vm _ (k.step vm) }

pub handle_stack_drop-Keeps : Keeps handle_stack_drop
unfolding handle_stack_drop
handle_stack_drop-Keeps = search (keep_rules) depth 30

pub handle_stack_drop_with_result-Keeps : Keeps handle_stack_drop_with_result
unfolding handle_stack_drop_with_result
handle_stack_drop_with_result-Keeps = with_nil-Keeps handle_stack_drop-Keeps

pub handle_stack_dup-Keeps : Keeps handle_stack_dup
unfolding handle_stack_dup
handle_stack_dup-Keeps = search (keep_rules) depth 30

pub handle_stack_dup_with_result-Keeps : Keeps handle_stack_dup_with_result
unfolding handle_stack_dup_with_result
handle_stack_dup_with_result-Keeps = with_top-Keeps handle_stack_dup-Keeps

pub handle_stack_swap-Keeps : Keeps handle_stack_swap
unfolding handle_stack_swap
handle_stack_swap-Keeps = search (keep_rules) depth 30

pub handle_stack_swap_with_result-Keeps : Keeps handle_stack_swap_with_result
unfolding handle_stack_swap_with_result
handle_stack_swap_with_result-Keeps = with_top-Keeps handle_stack_swap-Keeps

pub handle_stack_rot-Keeps : Keeps handle_stack_rot
unfolding handle_stack_rot
handle_stack_rot-Keeps = search (keep_rules) depth 30

pub handle_stack_rot_with_result-Keeps : Keeps handle_stack_rot_with_result
unfolding handle_stack_rot_with_result
handle_stack_rot_with_result-Keeps = with_top-Keeps handle_stack_rot-Keeps

pub handle_stack_add-Keeps : Keeps handle_stack_add
unfolding handle_stack_add on_numbers divided absolute
handle_stack_add-Keeps = search (keep_rules) depth 30

pub handle_stack_add_with_result-Keeps : Keeps handle_stack_add_with_result
unfolding handle_stack_add_with_result
handle_stack_add_with_result-Keeps = with_top-Keeps handle_stack_add-Keeps

pub handle_stack_sub-Keeps : Keeps handle_stack_sub
unfolding handle_stack_sub on_numbers divided absolute
handle_stack_sub-Keeps = search (keep_rules) depth 30

pub handle_stack_sub_with_result-Keeps : Keeps handle_stack_sub_with_result
unfolding handle_stack_sub_with_result
handle_stack_sub_with_result-Keeps = with_top-Keeps handle_stack_sub-Keeps

pub handle_stack_mul-Keeps : Keeps handle_stack_mul
unfolding handle_stack_mul on_numbers divided absolute
handle_stack_mul-Keeps = search (keep_rules) depth 30

pub handle_stack_mul_with_result-Keeps : Keeps handle_stack_mul_with_result
unfolding handle_stack_mul_with_result
handle_stack_mul_with_result-Keeps = with_top-Keeps handle_stack_mul-Keeps

pub handle_stack_div-Keeps : Keeps handle_stack_div
unfolding handle_stack_div on_numbers divided absolute
handle_stack_div-Keeps = search (keep_rules) depth 30

pub handle_stack_div_with_result-Keeps : Keeps handle_stack_div_with_result
unfolding handle_stack_div_with_result
handle_stack_div_with_result-Keeps = with_top-Keeps handle_stack_div-Keeps

pub handle_stack_mod-Keeps : Keeps handle_stack_mod
unfolding handle_stack_mod on_numbers divided absolute
handle_stack_mod-Keeps = search (keep_rules) depth 30

pub handle_stack_mod_with_result-Keeps : Keeps handle_stack_mod_with_result
unfolding handle_stack_mod_with_result
handle_stack_mod_with_result-Keeps = with_top-Keeps handle_stack_mod-Keeps

pub handle_stack_abs-Keeps : Keeps handle_stack_abs
unfolding handle_stack_abs on_numbers divided absolute
handle_stack_abs-Keeps = search (keep_rules) depth 30

pub handle_stack_abs_with_result-Keeps : Keeps handle_stack_abs_with_result
unfolding handle_stack_abs_with_result
handle_stack_abs_with_result-Keeps = with_top-Keeps handle_stack_abs-Keeps

pub handle_stack_less_than-Keeps : Keeps handle_stack_less_than
unfolding handle_stack_less_than compare_numbers
handle_stack_less_than-Keeps = search (keep_rules) depth 30

pub handle_stack_less_than_with_result-Keeps : Keeps handle_stack_less_than_with_result
unfolding handle_stack_less_than_with_result
handle_stack_less_than_with_result-Keeps = with_top-Keeps handle_stack_less_than-Keeps

pub handle_stack_greater_than-Keeps : Keeps handle_stack_greater_than
unfolding handle_stack_greater_than compare_numbers
handle_stack_greater_than-Keeps = search (keep_rules) depth 30

pub handle_stack_greater_than_with_result-Keeps : Keeps handle_stack_greater_than_with_result
unfolding handle_stack_greater_than_with_result
handle_stack_greater_than_with_result-Keeps = with_top-Keeps handle_stack_greater_than-Keeps

pub handle_stack_less_than_or_equal-Keeps : Keeps handle_stack_less_than_or_equal
unfolding handle_stack_less_than_or_equal compare_numbers
handle_stack_less_than_or_equal-Keeps = search (keep_rules) depth 30

pub handle_stack_less_than_or_equal_with_result-Keeps :
    Keeps handle_stack_less_than_or_equal_with_result
unfolding handle_stack_less_than_or_equal_with_result
handle_stack_less_than_or_equal_with_result-Keeps =
    with_top-Keeps handle_stack_less_than_or_equal-Keeps

pub handle_stack_greater_than_or_equal-Keeps : Keeps handle_stack_greater_than_or_equal
unfolding handle_stack_greater_than_or_equal compare_numbers
handle_stack_greater_than_or_equal-Keeps = search (keep_rules) depth 30

pub handle_stack_greater_than_or_equal_with_result-Keeps :
    Keeps handle_stack_greater_than_or_equal_with_result
unfolding handle_stack_greater_than_or_equal_with_result
handle_stack_greater_than_or_equal_with_result-Keeps =
    with_top-Keeps handle_stack_greater_than_or_equal-Keeps

pub handle_stack_link-Keeps : Keeps handle_stack_link
unfolding handle_stack_link
handle_stack_link-Keeps = search (keep_rules) depth 30

pub handle_stack_link_with_result-Keeps : Keeps handle_stack_link_with_result
unfolding handle_stack_link_with_result
handle_stack_link_with_result-Keeps = with_top-Keeps handle_stack_link-Keeps

pub handle_stack_head-Keeps : Keeps handle_stack_head
unfolding handle_stack_head
handle_stack_head-Keeps = search (keep_rules) depth 30

pub handle_stack_head_with_result-Keeps : Keeps handle_stack_head_with_result
unfolding handle_stack_head_with_result
handle_stack_head_with_result-Keeps = with_top-Keeps handle_stack_head-Keeps

pub handle_stack_tail-Keeps : Keeps handle_stack_tail
unfolding handle_stack_tail
handle_stack_tail-Keeps = search (keep_rules) depth 30

pub handle_stack_tail_with_result-Keeps : Keeps handle_stack_tail_with_result
unfolding handle_stack_tail_with_result
handle_stack_tail_with_result-Keeps = with_top-Keeps handle_stack_tail-Keeps

pub handle_stack_quote-Keeps : Keeps handle_stack_quote
unfolding handle_stack_quote
handle_stack_quote-Keeps = search (keep_rules) depth 30

pub handle_stack_quote_with_result-Keeps : Keeps handle_stack_quote_with_result
unfolding handle_stack_quote_with_result
handle_stack_quote_with_result-Keeps = with_top-Keeps handle_stack_quote-Keeps

pub handle_stack_type-Keeps : Keeps handle_stack_type
unfolding handle_stack_type
handle_stack_type-Keeps = search (keep_rules) depth 30

pub handle_stack_type_with_result-Keeps : Keeps handle_stack_type_with_result
unfolding handle_stack_type_with_result
handle_stack_type_with_result-Keeps = with_top-Keeps handle_stack_type-Keeps
