-- ===== src/Machine/Operators/Steps/Flow.antt =====
-- What the operators that evaluate or define do to the meter and the environment.
use Prim.Native.String.{String}
use text.Mathlib.Text.{◌==◌}
use text.Mathlib.TextEquality.{eq_iff}
use lib_py.Base.{ℕ, zero, suc, ◌≡◌, refl, Option, none, some, List, [], ◌∷◌, Bool-cases, inl, inr}
use lib_py.Expression.Expr.{Expr, Slot, missing, here}
use lib_py.Machine.Vm.{
  Vm, Env, Frame, frame_get, crash, outside, no_fuel, Action, bind_name, env_put,
}
use lib_py.Machine.Vm.Steps.{
  Extends, Step, refl-Step, Keeps, push-Keeps, inside-Keeps, raise-Keeps, pure-Keeps, keep_rules,
}
use lib_py.Machine.Operators.Stack.{handle_stack_dip}
use lib_py.Machine.Operators.Expression.{handle_stack_eval, charge_empty, handle_stack_is}
use lib_py.Machine.Operators.Tag.{
  handle_stack_ok, handle_stack_err, handle_stack_match, handle_stack_result, push_slot, or_pop_of,
}
use lib_py.Machine.Operators.Flow.{
  handle_stack_if, rec_loop, rec_unwind, handle_stack_rec, put_new, define_new, define,
  handle_stack_def, take_arguments, or_crash, push_first, apply_function, handle_stack_apply,
}

pub handle_stack_is-Keeps : Keeps handle_stack_is
unfolding handle_stack_is
handle_stack_is-Keeps = search (keep_rules) depth 30

pub handle_stack_ok-Keeps : Keeps handle_stack_ok
unfolding handle_stack_ok
handle_stack_ok-Keeps = search (keep_rules) depth 30

pub handle_stack_err-Keeps : Keeps handle_stack_err
unfolding handle_stack_err
handle_stack_err-Keeps = search (keep_rules) depth 30

pub push_slot-Keeps : (s : Slot) → Keeps (push_slot s)
push_slot-Keeps missing = raise-Keeps outside
push_slot-Keeps (here e) = push-Keeps e

pub charge_empty-Keeps : (stack : List Expr) → Keeps (charge_empty stack)
charge_empty-Keeps [] = search (keep_rules) depth 10
charge_empty-Keeps (e ∷ rest) = pure-Keeps tt

-- A new name shadows none.
frame_put-Extends :
    (name : String) (value : Expr) (frame : Frame)
    → frame_get name frame ≡ none
    → Extends frame ((name, value) ∷ frame)
unfolding frame_get
frame_put-Extends name value frame e other bound h = elim (Bool-cases (name == other)) [
  | inl same ↦ absurd (cc ((eq_iff name other).0 same))
  | inr differ ↦ rw differ h
]

pub put_new-Keeps :
    (name : String) (value : Expr) (vm : Vm) (o : Option Expr)
    → frame_get name vm.env.frame ≡ o
    → Step vm (put_new o name value vm).1
unfolding bind_name env_put
put_new-Keeps name value vm none e = record {
  metered = (refl-Step vm).metered;
  parents_same = refl;
  extends = λ other bound h. frame_put-Extends name value vm.env.frame e other bound h;
}
put_new-Keeps name value vm (some bound) e = refl-Step vm

pub define_new-Keeps : (name : String) (value : Expr) → Keeps (define_new name value)
unfolding define_new
define_new-Keeps name value = record { step = λ vm. put_new-Keeps name value vm _ refl }

pub handle_stack_def-Keeps : Keeps handle_stack_def
unfolding handle_stack_def define
handle_stack_def-Keeps = search (keep_rules, define_new-Keeps) depth 30

pub or_crash-Keeps : (s : Slot) → Keeps (or_crash s)
or_crash-Keeps missing = raise-Keeps crash
or_crash-Keeps (here e) = pure-Keeps e

pub push_first-Keeps : (stack : List Expr) → Keeps (push_first stack)
push_first-Keeps [] = pure-Keeps tt
push_first-Keeps (e ∷ rest) = push-Keeps e

pub take_arguments-Keeps : (names : List String) (env : Env) → Keeps (take_arguments names env)
unfolding take_arguments
take_arguments-Keeps [] env = pure-Keeps env
take_arguments-Keeps (name ∷ names) env = search (keep_rules, take_arguments-Keeps names) depth 30

module _ (run : Expr → Action (Unit {0})) (runs : (e : Expr) → Keeps (run e)) where
  pub handle_stack_dip-Keeps : Keeps (handle_stack_dip run)
  unfolding handle_stack_dip
  handle_stack_dip-Keeps = search (keep_rules, runs) depth 30

  pub handle_stack_eval-Keeps : Keeps (handle_stack_eval run)
  unfolding handle_stack_eval
  handle_stack_eval-Keeps = search (keep_rules, runs, charge_empty-Keeps) depth 30

  pub handle_stack_match-Keeps : Keeps (handle_stack_match run)
  unfolding handle_stack_match
  handle_stack_match-Keeps = search (keep_rules, runs, push_slot-Keeps) depth 30

  or_pop_of-Keeps :
      (stack : List Expr) {empty : Action (Unit {0})} {f : Expr → Action (Unit {0})}
      → Keeps empty
      → ((e : Expr) → Keeps (f e))
      → Keeps (or_pop_of stack empty f)
  or_pop_of-Keeps [] h g = h
  or_pop_of-Keeps (e ∷ rest) h g = search (keep_rules, g) depth 30

  pub handle_stack_result-Keeps : Keeps (handle_stack_result run)
  unfolding handle_stack_result
  handle_stack_result-Keeps = search (keep_rules, runs, push_slot-Keeps, or_pop_of-Keeps) depth 40

  pub handle_stack_if-Keeps : Keeps (handle_stack_if run)
  unfolding handle_stack_if
  handle_stack_if-Keeps = search (keep_rules, runs) depth 30

  rec_loop-Keeps :
      (fuel : ℕ) (pred then_branch rec1 : Expr) (count : ℕ)
      → Keeps (rec_loop fuel run pred then_branch rec1 count)
  unfolding rec_loop
  rec_loop-Keeps zero pred then_branch rec1 count = raise-Keeps no_fuel
  rec_loop-Keeps (suc fuel) pred then_branch rec1 count =
      search (keep_rules, runs, rec_loop-Keeps fuel pred then_branch rec1) depth 30

  rec_unwind-Keeps : (count : ℕ) (rec2 : Expr) → Keeps (rec_unwind count run rec2)
  unfolding rec_unwind
  rec_unwind-Keeps zero rec2 = pure-Keeps tt
  rec_unwind-Keeps (suc count) rec2 = search (keep_rules, runs, rec_unwind-Keeps count) depth 30

  pub handle_stack_rec-Keeps : (fuel : ℕ) → Keeps (handle_stack_rec fuel run)
  unfolding handle_stack_rec
  handle_stack_rec-Keeps fuel = search (keep_rules, rec_loop-Keeps, rec_unwind-Keeps) depth 30

  apply_function-Keeps : (fn : Expr) → Keeps (apply_function run fn)
  unfolding apply_function
  apply_function-Keeps fn =
      search
        (keep_rules, runs, or_crash-Keeps, push_first-Keeps, take_arguments-Keeps, inside-Keeps)
        depth 40

  pub handle_stack_apply-Keeps : Keeps (handle_stack_apply run)
  unfolding handle_stack_apply
  handle_stack_apply-Keeps = search (keep_rules, apply_function-Keeps) depth 30
