-- ===== src/Machine/Vm.antt =====
-- The state of an evaluation and its actions: a Python function that changes the machine, the stack
-- and the environment, and may raise. What was changed before a raise stays changed.
-- The environment is src/astreum/machine/environment.py.
pub mod Steps
pub mod Charges
use Prim.Native.String.{String, []}
use text.Mathlib.Text.{◌==◌ as ◌==s◌}
use lib_py.Base.{
  ℕ, Bool, true, false, Option, none, some, List, [], ◌∷◌, if◌then◌else◌, ltb, length,
}
use lib_py.Base.Int.{ℤ, pos}
use lib_py.Expression.Expr.{Expr}
use lib_py.Machine.Meter.{Meter, charge_bytes, Charge, charged, exceeded, unknown}

-- The dictionary of an Env: the first pair of a name counts.
abbrev pub Frame : Type 0
Frame = List (String × Expr)

unfoldable pub frame_get : String → Frame → Option Expr
frame_get name [] = none
frame_get name ((key, value) ∷ rest) =
    let other = frame_get name rest in if key ==s name then some value else other

-- An Env is its own dictionary and those of its parents, the nearest first.
pub record Env : Type 0 where
  pub frame : Frame
  pub parents : List Frame

unfoldable pub frames_get : String → List Frame → Option Expr
frames_get name [] = none
frames_get name (frame ∷ rest) = elim (frame_get name frame) [
  | some value ↦ some value
  | none ↦ frames_get name rest
]

unfoldable pub env_get : String → Env → Option Expr
env_get name env = frames_get name (env.frame ∷ env.parents)

unfoldable pub env_put : String → Expr → Env → Env
env_put name value env = record env { frame = (name, value) ∷ env.frame }

-- The stack is a list with its top first.
pub record Vm : Type 0 where
  pub stack : List Expr
  pub env : Env
  pub meter : Meter

-- `crash` is a Python exception that no handler of the machine catches, such as an AttributeError;
-- `outside` is code that this model leaves out, and `no_fuel` the end of its fuel.
pub data Error : Type 0 where
  op_error : String → Error
  index_error meter_exceeded crash outside no_fuel : Error

pub data Result (A : Type 0) : Type 0 where
  ok : A → Result A
  err : Error → Result A

abbrev pub Action : Type 0 → Type 0
Action A = Vm → Result A × Vm

abbrev pub pure : {A : Type 0} → A → Action A
pure a vm = (ok a, vm)

abbrev pub raise : {A : Type 0} → Error → Action A
raise e vm = (err e, vm)

abbrev pub of_result : {A : Type 0} → Result A → Action A
of_result r vm = (r, vm)

abbrev pub or_raise : {A : Type 0} → Error → Option A → Action A
or_raise e none = raise e
or_raise e (some a) = pure a

abbrev pub next : {A B : Type 0} → (A → Action B) → Result A × Vm → Result B × Vm
next f (ok a, vm) = f a vm
next f (err e, vm) = (err e, vm)

infixl 5 ◌>>=◌ ◌>>◌
abbrev pub ◌>>=◌ : {A B : Type 0} → Action A → (A → Action B) → Action B
◌>>=◌ m f vm = next f (m vm)

abbrev pub ◌>>◌ : {A B : Type 0} → Action A → Action B → Action B
m >> k = m >>= λ _. k

abbrev pub gets : {A : Type 0} → (Vm → A) → Action A
gets f vm = (ok (f vm), vm)

-- `stack.append` and `stack.pop`.
unfoldable pub push : Expr → Action (Unit {0})
push e vm = (ok tt, record vm { stack = e ∷ vm.stack })

abbrev pub pop_of : List Expr → Action Expr
pop_of [] vm = (err index_error, vm)
pop_of (e ∷ rest) vm = (ok e, record vm { stack = rest })

unfoldable pub pop : Action Expr
pop vm = pop_of vm.stack vm

abbrev pub charge_error : Charge → Result (Unit {0})
charge_error charged = ok tt
charge_error exceeded = err meter_exceeded
charge_error unknown = err crash

-- `machine.meter.charge_bytes(n)`.
unfoldable pub spend : ℕ → Action (Unit {0})
spend n vm =
    let (meter, outcome) = charge_bytes (pos n) false vm.meter in
    (charge_error outcome, record vm { meter = meter })

-- `if len(stack) < n: raise OpError("stack underflow")`.
unfoldable pub need : ℕ → Action (Unit {0})
need n vm = (if ltb (length vm.stack) n then err (op_error "stack underflow") else ok tt, vm)

unfoldable pub bind_name : String → Expr → Action (Unit {0})
bind_name name value vm = (ok tt, record vm { env = env_put name value vm.env })

-- A run on a stack and an environment of its own: the caller's are as they were.
abbrev pub back : {A : Type 0} → Vm → Result A × Vm → Result (A × List Expr) × Vm
back vm (ok a, vm') = (ok (a, vm'.stack), record vm { meter = vm'.meter })
back vm (err e, vm') = (err e, record vm { meter = vm'.meter })

unfoldable pub inside : {A : Type 0} → List Expr → Env → Action A → Action (A × List Expr)
inside stack env m vm = back vm (m (record vm { stack = stack; env = env }))

-- A run on a stack of its own, in the caller's environment.
abbrev pub with_stack_of : {A : Type 0} → Vm → Result A × Vm → Result (A × List Expr) × Vm
with_stack_of vm (ok a, vm') = (ok (a, vm'.stack), record vm' { stack = vm.stack })
with_stack_of vm (err e, vm') = (err e, record vm' { stack = vm.stack })

unfoldable pub on_stack : {A : Type 0} → List Expr → Action A → Action (A × List Expr)
on_stack stack m vm = with_stack_of vm (m (record vm { stack = stack }))
