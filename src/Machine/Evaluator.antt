-- ===== src/Machine/Evaluator.antt =====
-- The evaluation of expressions: src/astreum/machine/evaluator.py, the choice of an operator in
-- operators/main.py, and Machine.run of main.py.
pub mod Names
pub mod Table
pub mod Steps
pub mod Contained
pub mod Endless
pub mod Quotation
mod Tests
use Prim.Native.String.{String, len}
use text.Mathlib.Text.{◌==◌}
use lib_py.Base.{
  ℕ, zero, suc, ◌+◌, Bool, true, false, ◌&&◌, ◌||◌, Option, none, some, List, [], ◌∷◌,
  if◌then◌else◌,
}
use lib_py.Expression.Expr.{
  Expr, Slot, missing, here, symbol, bytes, int, str, nil, link, head_of, is_builtin_composite,
  size,
}
use lib_py.Machine.Vm.{
  Vm, Env, Result, ok, err, Error, Action, op_error, index_error, crash, outside, no_fuel, next,
  ◌>>=◌, ◌>>◌, pure, raise, gets, push, spend, env_get, inside,
}
use lib_py.Machine.Evaluator.Names.{is_operator, is_blocked}
use lib_py.Machine.Evaluator.Table.{Handler, apply_operator, Mode, deterministic, dynamic}

-- `except (OpError, IndexError)`.
abbrev pub recovered : Result (Unit {0}) × Vm → Result (Unit {0}) × Vm
recovered (err (op_error message), vm) = (do spend 1; push nil) vm
recovered (err index_error, vm) = (do spend 1; push nil) vm
recovered other = other

unfoldable pub guarded : Handler → Handler
guarded handler vm = recovered (handler vm)

unfoldable pub push_bound : String → Option Expr → Handler
push_bound name none = do spend (len name + 1); push (link missing missing)
push_bound name (some bound) = do spend (len name + size bound); push bound

abbrev pub evaluate_dynamic : ℕ → (Expr → Handler) → String → Option Expr → Handler
evaluate_dynamic fuel run name (some value) =
    if is_operator name
    then (do spend (size value); guarded (run value))
    else push_bound name (some value)
evaluate_dynamic fuel run name none =
    if is_operator name
    then guarded (apply_operator dynamic fuel run name)
    else push_bound name none

unfoldable pub evaluate_symbol : Mode → ℕ → (Expr → Handler) → String → Handler
evaluate_symbol deterministic fuel run name =
    if is_operator name
    then guarded (apply_operator deterministic fuel run name)
    else (do bound ← gets (λ vm. env_get name vm.env); push_bound name bound)
evaluate_symbol dynamic fuel run name = do
  bound ← gets (λ vm. env_get name vm.env)
  evaluate_dynamic fuel run name bound

abbrev pub quoted_head : Slot → Handler
quoted_head missing = raise crash
quoted_head (here e) = do spend (size e); push e

-- The quotation (' x): the head of the tail is pushed.
unfoldable pub evaluate_quotation : Slot → Handler
evaluate_quotation missing = do spend 1; push nil
evaluate_quotation (here nil) = do spend 1; push nil
evaluate_quotation (here tail) = quoted_head (head_of tail)

abbrev pub is_quote : Slot → Bool
is_quote (here (symbol s)) = s == "'"
is_quote _ = false

abbrev pub run_slot : (Expr → Handler) → Slot → Handler
run_slot run missing = pure tt
run_slot run (here e) = run e

abbrev pub push_charged : Expr → Handler
push_charged e = do spend (size e); push e

unfoldable pub evaluate_expr : Mode → ℕ → (Expr → Handler) → Expr → Handler
evaluate_expr mode fuel run (symbol name) = evaluate_symbol mode fuel run name
evaluate_expr mode fuel run (link h t) =
    if is_builtin_composite (link h t)
    then push_charged (link h t)
    else if is_quote h
    then evaluate_quotation t
    else (do run_slot run h; run_slot run t)
evaluate_expr mode fuel run nil = pure tt
evaluate_expr mode fuel run e = push_charged e

-- The depth of the calls is on fuel, and so is each loop of `rec`.
unfoldable pub evaluation : Mode → ℕ → Expr → Handler
evaluation mode zero e = raise no_fuel
evaluation mode (suc fuel) e = evaluate_expr mode fuel (evaluation mode fuel) e

abbrev top_or_nil : List Expr → Expr
top_or_nil [] = nil
top_or_nil (e ∷ rest) = e

-- `Machine.run`: the result is the top of a stack of its own.
unfoldable pub run_machine : Mode → ℕ → Expr → Env → Action Expr
run_machine mode fuel e env = do
  (done, results) ← inside [] env (evaluation mode fuel e)
  pure (top_or_nil results)
