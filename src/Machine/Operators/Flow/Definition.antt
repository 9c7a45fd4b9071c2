-- ===== src/Machine/Operators/Flow/Definition.antt =====
-- The bindings that `def` makes.
use Prim.Native.String.{String}
use text.Mathlib.Text.{◌==◌}
use text.Mathlib.TextEquality.{eq_iff}
use lib_py.Base.{
  ◌+◌, ◌≡◌, refl, ◌≢◌, inl, inr, false, none, some, ◌∷◌, ltb, length, Bool-cases, arith,
}
use lib_py.Expression.Expr.{Expr, symbol, get_expr_tag, size}
use lib_py.Machine.Vm.{
  Vm, Frame, frame_get, frames_get, env_get, env_put, bind_name, ok, err, op_error, pop, spend,
  need,
}
use lib_py.Machine.Vm.Charges.{charge_unlimited, bind_ok}
use lib_py.Machine.Operators.Flow.{handle_stack_def, define, define_new}

-- A value and above it the name that it is to have.
abbrev pub with_definition : String → Expr → Vm → Vm
with_definition name value vm = record vm { stack = symbol name ∷ value ∷ vm.stack }

def_is_define :
    (name : String) (value : Expr) (vm : Vm)
    → vm.meter.limit ≡ none
    → handle_stack_def (with_definition name value vm) ≡ define_new name value vm
unfolding handle_stack_def define pop need get_expr_tag
def_is_define name value vm e =
    let enough : ltb (length (with_definition name value vm).stack) 2 ≡ false = ground arith in
    rw enough (bind_ok (spend (size (symbol name) + size value)) _ (charge_unlimited _ vm e))

frame_get_self :
    (name : String) (value : Expr) (frame : Frame)
    → frame_get name ((name, value) ∷ frame) ≡ some value
unfolding frame_get
frame_get_self name value frame = rw ((eq_iff name name).1 refl) refl

frame_get_other :
    (name other : String) (value : Expr) (frame : Frame)
    → name ≢ other
    → frame_get other ((name, value) ∷ frame) ≡ frame_get other frame
unfolding frame_get
frame_get_other name other value frame h = elim (Bool-cases (name == other)) [
  | inl same ↦ absurd (h ((eq_iff name other).0 same))
  | inr differ ↦ rw differ refl
]

-- `def` binds a name that the environment itself does not bind: with the name above the value on the
-- stack and no limit on the meter, the two are taken from the stack, the name is then bound to the
-- value, and each other name is bound as before, in the environment and its parents. A second `def`
-- of the name raises an OpError and changes nothing else than the stack.
pub handle_stack_def-env_get :
    (name other : String) (value later : Expr) (vm : Vm)
    → vm.meter.limit ≡ none
    → frame_get name vm.env.frame ≡ none
    → name ≢ other
    → let after = record vm { env = env_put name value vm.env } in
      (handle_stack_def (with_definition name value vm) ≡ (ok tt, after))
      × (env_get name after.env ≡ some value)
      × (env_get other after.env ≡ env_get other vm.env)
      × (handle_stack_def (with_definition name later after)
          ≡ (err (op_error "def already exists"), after))
unfolding define_new bind_name env_put env_get frames_get
handle_stack_def-env_get name other value later vm e free differ =
    let after : Vm = record vm { env = env_put name value vm.env } in
    let self = frame_get_self name value vm.env.frame in
    let apart = frame_get_other name other value vm.env.frame differ in
    (
      rw (def_is_define name value vm e, define_new, free) refl,
      rw (env_get, env_put, frames_get, self) refl,
      rw (env_get, env_put, frames_get, apart) refl,
      rw (def_is_define name later after e, define_new, self) refl,
    )
