-- ===== src/Machine/Evaluator/Contained.antt =====
-- What an evaluation leaves to its caller.
use Prim.Native.String.{String}
use lib_py.Base.{
  ℕ, zero, suc, ◌≡◌, ◌≢◌, refl, ◌∙◌, Bool, true, false, Option, none, some, if◌then◌else◌,
}
use lib_py.Base.Int.{ℤ, pos, ◌≤ℤ◌}
use lib_py.Expression.Expr.{Expr, Slot, missing, here, symbol, bytes, int, str, nil, link}
use lib_py.Machine.Meter.{total, Charge, charged, exceeded, unknown, charge_bytes}
use lib_py.Machine.Vm.{
  Vm, Env, env_get, frame_get, frames_get, Result, ok, err, op_error, index_error, meter_exceeded,
  crash, outside, no_fuel, Action, next, ◌>>=◌, ◌>>◌, push, spend, charge_error, gets, pure, raise,
}
use lib_py.Machine.Evaluator.Table.{Mode, deterministic, dynamic, Handler}
use lib_py.Machine.Evaluator.{
  recovered, guarded, push_bound, evaluate_symbol, evaluate_dynamic, evaluate_quotation,
  quoted_head, run_slot, evaluate_expr, evaluation,
}
use lib_py.Machine.Evaluator.Steps.{evaluation-Keeps}

-- A limit of the meter holds during each evaluation, whatever its outcome: from a meter within its
-- limit, the evaluation of any expression ends with the same limit and within it, also where it
-- raises or is cut off by its fuel; and what was charged before stays charged.
pub evaluation_metered :
    (mode : Mode) (fuel : ℕ) (e : Expr) (vm : Vm) (limit : ℤ)
    → vm.meter.limit ≡ some limit
    → total vm.meter ≤ℤ limit
    → ((evaluation mode fuel e vm).1.meter.limit ≡ some limit)
      × (total vm.meter ≤ℤ total (evaluation mode fuel e vm).1.meter)
      × (total (evaluation mode fuel e vm).1.meter ≤ℤ limit)
evaluation_metered mode fuel e vm limit limited below =
    let m = ((evaluation-Keeps mode fuel e).step vm).metered in
    (m.limit_same ∙ limited, m.spent, m.within limit limited below)

frame_get-env_get :
    (name : String) (value : Expr) (env : Env)
    → frame_get name env.frame ≡ some value
    → env_get name env ≡ some value
unfolding env_get frames_get
frame_get-env_get name value env e = rw (env_get, frames_get, e) refl

-- A name is bound once: a name that is bound in the environment's own dictionary before an
-- evaluation has the same value after it, and the parents of the environment are the same, whatever
-- the outcome, if the evaluation has not met an operator that the model leaves out, such as split,
-- which changes its argument in place.
pub evaluation_write_once :
    (mode : Mode) (fuel : ℕ) (e : Expr) (vm : Vm) (name : String) (value : Expr)
    → frame_get name vm.env.frame ≡ some value
    → (evaluation mode fuel e vm).0 ≢ err outside
    → (env_get name (evaluation mode fuel e vm).1.env ≡ some value)
      × ((evaluation mode fuel e vm).1.env.parents ≡ vm.env.parents)
evaluation_write_once mode fuel e vm name value bound inside =
    let s = (evaluation-Keeps mode fuel e).step vm in
    (
      frame_get-env_get name value (evaluation mode fuel e vm).1.env (s.extends name value bound),
      s.parents_same,
    )

-- An OpError and an IndexError do not leave an evaluation.
abbrev pub Contained : {A : Type 0} → Result A → Type 0
Contained (err (op_error message)) = ⊥
Contained (err index_error) = ⊥
Contained other = Unit

record Contains {A : Type 0} (m : Action A) : Type 0 where
  contained : (vm : Vm) → Contained (m vm).0

charge_error-Contained : (c : Charge) → Contained (charge_error c)
charge_error-Contained charged = tt
charge_error-Contained exceeded = tt
charge_error-Contained unknown = tt

charge-Contains : (n : ℕ) → Contains (spend n)
unfolding spend
charge-Contains n = record {
  contained = λ vm. charge_error-Contained (charge_bytes (pos n) false vm.meter).1;
}

push-Contains : (e : Expr) → Contains (push e)
unfolding push
push-Contains e = record { contained = λ vm. tt }

pure-Contains : Contains (pure tt)
pure-Contains = record { contained = λ vm. tt }

crash-Contains : Contains {A = Unit {0}} (raise crash)
crash-Contains = record { contained = λ vm. tt }

gets-Contains : {A : Type 0} (f : Vm → A) → Contains (gets f)
gets-Contains f = record { contained = λ vm. tt }

next-Contained :
    {A B : Type 0} (r : Result A × Vm) (f : A → Action B)
    → Contained r.0
    → ((a : A) → Contains (f a))
    → Contained (next f r).0
next-Contained (ok a, vm) f h g = (g a).contained vm
next-Contained (err crash, vm) f h g = tt
next-Contained (err meter_exceeded, vm) f h g = tt
next-Contained (err outside, vm) f h g = tt
next-Contained (err no_fuel, vm) f h g = tt
next-Contained (err index_error, vm) f h g = absurd h
next-Contained (err (op_error message), vm) f h g = absurd h

bind-Contains :
    {A B : Type 0} {m : Action A} {f : A → Action B}
    → Contains m
    → ((a : A) → Contains (f a))
    → Contains (m >>= f)
bind-Contains {m = m} {f = f} h g = record {
  contained = λ vm. next-Contained (m vm) f (h.contained vm) g;
}

if-Contains : (b : Bool) {m k : Handler} → Contains m → Contains k → Contains (if b then m else k)
if-Contains true h g = h
if-Contains false h g = g

ruleset contain_rules = (
  bind-Contains, charge-Contains, push-Contains, pure-Contains, crash-Contains, gets-Contains,
  if-Contains,
)

push_nil-Contains : Contains (do spend 1; push nil)
push_nil-Contains = search (contain_rules) depth 10

recovered-Contained : (r : Result (Unit {0}) × Vm) → Contained (recovered r).0
recovered-Contained (err (op_error message), vm) = push_nil-Contains.contained vm
recovered-Contained (err index_error, vm) = push_nil-Contains.contained vm
recovered-Contained (ok u, vm) = tt
recovered-Contained (err meter_exceeded, vm) = tt
recovered-Contained (err crash, vm) = tt
recovered-Contained (err outside, vm) = tt
recovered-Contained (err no_fuel, vm) = tt

guarded-Contains : (handler : Handler) → Contains (guarded handler)
unfolding guarded
guarded-Contains handler = record { contained = λ vm. recovered-Contained (handler vm) }

push_bound-Contains : (name : String) (o : Option Expr) → Contains (push_bound name o)
unfolding push_bound
push_bound-Contains name none = search (contain_rules) depth 10
push_bound-Contains name (some e) = search (contain_rules) depth 10

quoted_head-Contains : (s : Slot) → Contains (quoted_head s)
quoted_head-Contains missing = crash-Contains
quoted_head-Contains (here e) = search (contain_rules) depth 10

evaluate_quotation-Contains : (s : Slot) → Contains (evaluate_quotation s)
unfolding evaluate_quotation
evaluate_quotation-Contains missing = push_nil-Contains
evaluate_quotation-Contains (here nil) = push_nil-Contains
evaluate_quotation-Contains (here (symbol s)) = quoted_head-Contains _
evaluate_quotation-Contains (here (bytes b)) = quoted_head-Contains _
evaluate_quotation-Contains (here (int v)) = quoted_head-Contains _
evaluate_quotation-Contains (here (str s)) = quoted_head-Contains _
evaluate_quotation-Contains (here (link h t)) = quoted_head-Contains _

module _ (fuel : ℕ) (run : Expr → Handler) (runs : (e : Expr) → Contains (run e)) where
  evaluate_dynamic-Contains :
      (name : String) (o : Option Expr) → Contains (evaluate_dynamic fuel run name o)
  evaluate_dynamic-Contains name none =
      search (contain_rules, guarded-Contains, push_bound-Contains) depth 10
  evaluate_dynamic-Contains name (some e) =
      search (contain_rules, guarded-Contains, push_bound-Contains) depth 10

  evaluate_symbol-Contains :
      (mode : Mode) (name : String) → Contains (evaluate_symbol mode fuel run name)
  unfolding evaluate_symbol
  evaluate_symbol-Contains deterministic name =
      search (contain_rules, guarded-Contains, push_bound-Contains) depth 10
  evaluate_symbol-Contains dynamic name = search (contain_rules, evaluate_dynamic-Contains) depth 10

  run_slot-Contains : (s : Slot) → Contains (run_slot run s)
  run_slot-Contains missing = pure-Contains
  run_slot-Contains (here e) = runs e

  evaluate_expr-Contains : (mode : Mode) (e : Expr) → Contains (evaluate_expr mode fuel run e)
  unfolding evaluate_expr
  evaluate_expr-Contains mode (symbol name) = evaluate_symbol-Contains mode name
  evaluate_expr-Contains mode (link h t) =
      search (contain_rules, evaluate_quotation-Contains, run_slot-Contains) depth 20
  evaluate_expr-Contains mode nil = pure-Contains
  evaluate_expr-Contains mode (bytes b) = search (contain_rules) depth 10
  evaluate_expr-Contains mode (int v) = search (contain_rules) depth 10
  evaluate_expr-Contains mode (str s) = search (contain_rules) depth 10

evaluation-Contains : (mode : Mode) (fuel : ℕ) (e : Expr) → Contains (evaluation mode fuel e)
unfolding evaluation
evaluation-Contains mode zero e = record { contained = λ vm. tt }
evaluation-Contains mode (suc fuel) e =
    evaluate_expr-Contains fuel (evaluation mode fuel) (evaluation-Contains mode fuel) mode e

-- No OpError and no IndexError leaves an evaluation: in either mode, at any fuel and from any state,
-- the outcome of an evaluation is none of the two.
pub evaluation-Contained :
    (mode : Mode) (fuel : ℕ) (e : Expr) (vm : Vm) → Contained (evaluation mode fuel e vm).0
evaluation-Contained mode fuel e vm = (evaluation-Contains mode fuel e).contained vm
