-- ===== src/Machine/Evaluator/Endless.antt =====
-- A program that the meter does not stop.
use lib_py.Base.{ℕ, zero, suc, ◌≡◌, refl, ◌∙◌, false, [], ◌∷◌, length, ltb, arith}
use lib_py.Base.Bytes.{from_bytes_big}
use lib_py.Expression.Expr.{symbol, bytes, size, get_expr_tag}
use lib_py.Machine.Vm.{
  Vm, Result, ok, err, op_error, index_error, meter_exceeded, crash, outside, no_fuel, Action, next,
  push, pop, spend, need,
}
use lib_py.Machine.Vm.Charges.{WithinLimit, charge_zero, bind_ok}
use lib_py.Machine.Operators.Flow.{is_truthy, rec_loop, handle_stack_rec}
use lib_py.Machine.Evaluator.Table.{deterministic, operator_table, find_handler, apply_operator}
use lib_py.Machine.Evaluator.{recovered, guarded, evaluate_symbol, evaluate_expr, evaluation}
use lib_py.Machine.Evaluator.Names.{is_operator, is_blocked}

abbrev pub pushed : Vm → Vm
pushed vm = record vm { stack = bytes [] ∷ vm.stack }

-- The empty bytes are evaluated to themselves, at no charge.
evaluation_empty :
    (fuel : ℕ) (vm : Vm)
    → WithinLimit vm
    → evaluation deterministic (suc fuel) (bytes []) vm ≡ (ok tt, pushed vm)
unfolding evaluation evaluate_expr size push
evaluation_empty fuel vm h = rw (charge_zero vm h) refl

-- One round of the loop: the condition is false, and the stack is longer by one.
round :
    (fuel f count : ℕ) (vm : Vm)
    → WithinLimit vm
    → rec_loop
        (suc f)
        (evaluation deterministic (suc fuel))
        (bytes [])
        (bytes [])
        (bytes [])
        count
        vm
      ≡ rec_loop f
          (evaluation deterministic (suc fuel))
          (bytes [])
          (bytes [])
          (bytes [])
          (suc count)
          (pushed vm)
unfolding rec_loop size pop is_truthy get_expr_tag from_bytes_big
round fuel f count vm h =
    bind_ok (spend 0) _ (charge_zero vm h)
    ∙ bind_ok (evaluation deterministic (suc fuel) (bytes [])) _ (evaluation_empty fuel vm h)
    ∙ bind_ok (spend 0) _ (charge_zero vm h)
    ∙ bind_ok (spend 0) _ (charge_zero vm h)
    ∙ bind_ok (evaluation deterministic (suc fuel) (bytes [])) _ (evaluation_empty fuel vm h)

no_round :
    (f count : ℕ) (vm : Vm)
    → WithinLimit vm
    → rec_loop (suc f) (evaluation deterministic 0) (bytes []) (bytes []) (bytes []) count vm
      ≡ (err no_fuel, vm)
unfolding rec_loop size evaluation
no_round f count vm h = bind_ok (spend 0) _ (charge_zero vm h)

-- Fuel has run out, and nothing has been charged.
abbrev pub Endless : {A : Type 0} → Vm → Result A × Vm → Type 0
Endless vm r = (r.0 ≡ err no_fuel) × (r.1.meter ≡ vm.meter)

rec_loop-Endless :
    (fuel f count : ℕ) (vm : Vm)
    → WithinLimit vm
    → Endless vm
        (rec_loop f (evaluation deterministic fuel) (bytes []) (bytes []) (bytes []) count vm)
unfolding rec_loop
rec_loop-Endless fuel zero count vm h = (refl, refl)
rec_loop-Endless zero (suc f) count vm h = rw (no_round f count vm h) (refl, refl)
rec_loop-Endless (suc fuel) (suc f) count vm h =
    rw (round fuel f count vm h) (rec_loop-Endless (suc fuel) f (suc count) (pushed vm) h)

next-Endless :
    {A B : Type 0} (vm : Vm) (r : Result A × Vm) (f : A → Action B)
    → Endless vm r
    → Endless vm (next f r)
next-Endless vm (ok a, vm') f h = absurd (cc h.0)
next-Endless vm (err e, vm') f h = (cc, cc)

recovered-Endless : (vm : Vm) (r : Result (Unit {0}) × Vm) → Endless vm r → Endless vm (recovered r)
recovered-Endless vm (err no_fuel, vm') h = h
recovered-Endless vm (ok u, vm') h = absurd (cc h.0)
recovered-Endless vm (err (op_error message), vm') h = absurd (cc h.0)
recovered-Endless vm (err index_error, vm') h = absurd (cc h.0)
recovered-Endless vm (err meter_exceeded, vm') h = absurd (cc h.0)
recovered-Endless vm (err crash, vm') h = absurd (cc h.0)
recovered-Endless vm (err outside, vm') h = absurd (cc h.0)

-- Four empty bytes on the stack.
abbrev pub four : Vm → Vm
four vm = pushed (pushed (pushed (pushed vm)))

need-four : (vm : Vm) → need 4 (four vm) ≡ (ok tt, four vm)
unfolding need
need-four vm = let enough : ltb (length (four vm).stack) 4 ≡ false = ground arith in rw enough refl

handle_stack_rec-Endless :
    (fuel : ℕ) (vm : Vm)
    → WithinLimit vm
    → Endless vm (handle_stack_rec fuel (evaluation deterministic fuel) (four vm))
unfolding handle_stack_rec pop
handle_stack_rec-Endless fuel vm h = rw (bind_ok (need 4) _ (need-four vm)) (
    next-Endless vm
      (rec_loop fuel (evaluation deterministic fuel) (bytes []) (bytes []) (bytes []) 0 vm) _
      (rec_loop-Endless fuel fuel 0 vm h))

-- The program "0x 0x 0x 0x rec" never ends, and the meter does not stop it: from a state with four
-- empty bytes on the top of the stack and a meter within its limit, the evaluation of `rec` in
-- deterministic mode uses up any fuel, and the meter is then as it was.
pub rec-Endless :
    (fuel : ℕ) (vm : Vm)
    → WithinLimit vm
    → Endless vm (evaluation deterministic fuel (symbol "rec") (four vm))
unfolding evaluation evaluate_expr evaluate_symbol guarded apply_operator find_handler
    operator_table is_operator is_blocked
rec-Endless zero vm h = (refl, refl)
rec-Endless (suc fuel) vm h =
    recovered-Endless vm (handle_stack_rec fuel (evaluation deterministic fuel) (four vm))
      (handle_stack_rec-Endless fuel vm h)
