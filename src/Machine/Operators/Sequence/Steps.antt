-- ===== src/Machine/Operators/Sequence/Steps.antt =====
-- What the operators on sequences do to the meter and the environment.
use Prim.Native.String.{String}
use lib_py.Base.{List, [], ◌∷◌}
use lib_py.Expression.Expr.{Expr, symbol, bytes, int, str, nil, link}
use lib_py.Machine.Vm.{Action}
use lib_py.Machine.Vm.Steps.{Keeps, push-Keeps, pure-Keeps, on_stack-Keeps, keep_rules}
use lib_py.Machine.Operators.Steps.{with_top-Keeps}
use lib_py.Machine.Operators.Sequence.{run_step, step_for}
use lib_py.Machine.Operators.Sequence.Plain.{
  handle_stack_count, handle_stack_count_with_result, handle_stack_reverse,
  handle_stack_reverse_with_result, handle_stack_concat, handle_stack_concat_with_result,
  handle_stack_zip, handle_stack_zip_with_result,
}
use lib_py.Machine.Operators.Sequence.Programs.{
  map_elems, filter_elems, each_elem, fold_elems, find_elem, find_in, spend_unless_empty,
  handle_stack_map, handle_stack_filter, handle_stack_each, handle_stack_fold, handle_stack_find,
}

pub handle_stack_count-Keeps : Keeps handle_stack_count
unfolding handle_stack_count
handle_stack_count-Keeps = search (keep_rules) depth 40

pub handle_stack_count_with_result-Keeps : Keeps handle_stack_count_with_result
unfolding handle_stack_count_with_result
handle_stack_count_with_result-Keeps = with_top-Keeps handle_stack_count-Keeps

pub handle_stack_reverse-Keeps : Keeps handle_stack_reverse
unfolding handle_stack_reverse
handle_stack_reverse-Keeps = search (keep_rules) depth 40

pub handle_stack_reverse_with_result-Keeps : Keeps handle_stack_reverse_with_result
unfolding handle_stack_reverse_with_result
handle_stack_reverse_with_result-Keeps = with_top-Keeps handle_stack_reverse-Keeps

pub handle_stack_concat-Keeps : Keeps handle_stack_concat
unfolding handle_stack_concat
handle_stack_concat-Keeps = search (keep_rules) depth 40

pub handle_stack_concat_with_result-Keeps : Keeps handle_stack_concat_with_result
unfolding handle_stack_concat_with_result
handle_stack_concat_with_result-Keeps = with_top-Keeps handle_stack_concat-Keeps

pub handle_stack_zip-Keeps : Keeps handle_stack_zip
unfolding handle_stack_zip
handle_stack_zip-Keeps = search (keep_rules) depth 40

pub handle_stack_zip_with_result-Keeps : Keeps handle_stack_zip_with_result
unfolding handle_stack_zip_with_result
handle_stack_zip_with_result-Keeps = with_top-Keeps handle_stack_zip-Keeps

step_for-Keeps : (fn : Expr) → Keeps (step_for fn)
unfolding step_for
step_for-Keeps fn = search (keep_rules) depth 10

spend_unless_empty-Keeps : (tag : String) (es : List Expr) → Keeps (spend_unless_empty tag es)
spend_unless_empty-Keeps tag [] = pure-Keeps tt
spend_unless_empty-Keeps tag (e ∷ es) = search (keep_rules) depth 10

module _ (run : Expr → Action (Unit {0})) (runs : (e : Expr) → Keeps (run e)) where
  run_step-Keeps : (fn : Expr) (stack : List Expr) → Keeps (run_step run fn stack)
  unfolding run_step
  run_step-Keeps fn stack = search (keep_rules, on_stack-Keeps, runs) depth 20

  map_elems-Keeps : (fn : Expr) (tag : String) (es : List Expr) → Keeps (map_elems run fn tag es)
  unfolding map_elems
  map_elems-Keeps fn tag [] = pure-Keeps _
  map_elems-Keeps fn tag (e ∷ es) =
      let ih = map_elems-Keeps fn tag es in search (keep_rules, run_step-Keeps) depth 30

  filter_elems-Keeps : (fn : Expr) (es : List Expr) → Keeps (filter_elems run fn es)
  unfolding filter_elems
  filter_elems-Keeps fn [] = pure-Keeps _
  filter_elems-Keeps fn (e ∷ es) =
      let ih = filter_elems-Keeps fn es in search (keep_rules, run_step-Keeps) depth 30

  each_elem-Keeps : (fn : Expr) (es : List Expr) → Keeps (each_elem run fn es)
  unfolding each_elem
  each_elem-Keeps fn [] = pure-Keeps _
  each_elem-Keeps fn (e ∷ es) =
      let ih = each_elem-Keeps fn es in search (keep_rules, run_step-Keeps) depth 30

  find_elem-Keeps : (fn : Expr) (es : List Expr) → Keeps (find_elem run fn es)
  unfolding find_elem
  find_elem-Keeps fn [] = pure-Keeps _
  find_elem-Keeps fn (e ∷ es) =
      let ih = find_elem-Keeps fn es in search (keep_rules, run_step-Keeps) depth 30

  fold_elems-Keeps : (fn : Expr) (es : List Expr) (acc : Expr) → Keeps (fold_elems run fn es acc)
  unfolding fold_elems
  fold_elems-Keeps fn [] acc = pure-Keeps acc
  fold_elems-Keeps fn (e ∷ es) acc =
      search (keep_rules, run_step-Keeps, fold_elems-Keeps fn es) depth 30

  pub handle_stack_map-Keeps : Keeps (handle_stack_map run)
  unfolding handle_stack_map
  handle_stack_map-Keeps = search (keep_rules, map_elems-Keeps, step_for-Keeps) depth 40

  pub handle_stack_filter-Keeps : Keeps (handle_stack_filter run)
  unfolding handle_stack_filter
  handle_stack_filter-Keeps = search (keep_rules, filter_elems-Keeps, step_for-Keeps) depth 40

  pub handle_stack_each-Keeps : Keeps (handle_stack_each run)
  unfolding handle_stack_each
  handle_stack_each-Keeps = search (keep_rules, each_elem-Keeps, step_for-Keeps) depth 40

  pub handle_stack_fold-Keeps : Keeps (handle_stack_fold run)
  unfolding handle_stack_fold
  handle_stack_fold-Keeps =
      search (keep_rules, fold_elems-Keeps, step_for-Keeps, spend_unless_empty-Keeps) depth 40

  find_in-Keeps : (fn value : Expr) → Keeps (find_in run fn value)
  find_in-Keeps fn nil = push-Keeps _
  find_in-Keeps fn (symbol s) = search (keep_rules, find_elem-Keeps, step_for-Keeps) depth 30
  find_in-Keeps fn (bytes b) = search (keep_rules, find_elem-Keeps, step_for-Keeps) depth 30
  find_in-Keeps fn (int v) = search (keep_rules, find_elem-Keeps, step_for-Keeps) depth 30
  find_in-Keeps fn (str s) = search (keep_rules, find_elem-Keeps, step_for-Keeps) depth 30
  find_in-Keeps fn (link h t) = search (keep_rules, find_elem-Keeps, step_for-Keeps) depth 30

  pub handle_stack_find-Keeps : Keeps (handle_stack_find run)
  unfolding handle_stack_find
  handle_stack_find-Keeps = search (keep_rules, find_in-Keeps) depth 20
