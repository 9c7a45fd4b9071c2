-- ===== src/Machine/Vm/Steps.antt =====
-- What every action of the machine does to the meter and the environment.
use lib_py.Base.{
  ℕ, ◌≡◌, refl, ◌∙◌, Bool, true, false, Option, none, some, List, [], ◌∷◌, if◌then◌else◌,
}
use Prim.Native.String.{String}
use lib_py.Base.Int.{ℤ, pos, ◌≤ℤ◌, int_laws}
use lib_py.Expression.Expr.{Expr}
use lib_py.Machine.Meter.{Meter, total, charge, add_charge, charge_bytes}
use lib_py.Machine.Vm.{
  Frame, frame_get, Env, Vm, Error, Result, ok, err, Action, pure, raise, of_result, or_raise, gets,
  next, ◌>>=◌, push, pop, pop_of, spend, need, inside, on_stack, with_stack_of, back,
}

-- The meter keeps its limit, does not go back, and does not pass its limit.
pub record Metered (a b : Meter) : Type 0 where
  pub limit_same : b.limit ≡ a.limit
  pub spent : total a ≤ℤ total b
  pub within : (limit : ℤ) → a.limit ≡ some limit → total a ≤ℤ limit → total b ≤ℤ limit

-- The names that are bound keep their values.
abbrev pub Extends : Frame → Frame → Type 0
Extends a b =
    (name : String) (value : Expr) → frame_get name a ≡ some value → frame_get name b ≡ some value

pub record Step (a b : Vm) : Type 0 where
  pub metered : Metered a.meter b.meter
  pub parents_same : b.env.parents ≡ a.env.parents
  pub extends : Extends a.env.frame b.env.frame

pub record Keeps {A : Type 0} (m : Action A) : Type 0 where
  pub step : (vm : Vm) → Step vm (m vm).1

refl-Metered : (a : Meter) → Metered a a
refl-Metered a = record { limit_same = refl; spent = grind int_laws; within = λ limit e h. h }

trans-Metered : {a b c : Meter} → Metered a b → Metered b c → Metered a c
trans-Metered f g = record {
  limit_same = g.limit_same ∙ f.limit_same;
  spent = grind int_laws;
  within = λ limit e h. g.within limit (f.limit_same ∙ e) (f.within limit e h);
}

pub refl-Step : (a : Vm) → Step a a
refl-Step a = record {
  metered = refl-Metered a.meter;
  parents_same = refl;
  extends = λ name value e. e;
}

pub trans-Step : {a b c : Vm} → Step a b → Step b c → Step a c
trans-Step f g = record {
  metered = trans-Metered f.metered g.metered;
  parents_same = g.parents_same ∙ f.parents_same;
  extends = λ name value e. g.extends name value (f.extends name value e);
}

charge_bytes-Metered : (n : ℕ) (m : Meter) → Metered m (charge_bytes (pos n) false m).0
unfolding charge_bytes charge add_charge total
charge_bytes-Metered n m = record {
  limit_same = grind int_laws;
  spent = grind int_laws;
  within = λ limit e h. grind int_laws;
}

pub raise-Keeps : {A : Type 0} (e : Error) → Keeps {A = A} (raise e)
raise-Keeps e = record { step = refl-Step }

module _ {A : Type 0} where
  pub pure-Keeps : (a : A) → Keeps (pure a)
  pure-Keeps a = record { step = refl-Step }

  pub of_result-Keeps : (r : Result A) → Keeps (of_result r)
  of_result-Keeps r = record { step = refl-Step }

  pub or_raise-Keeps : (e : Error) (o : Option A) → Keeps (or_raise e o)
  or_raise-Keeps e none = raise-Keeps e
  or_raise-Keeps e (some a) = pure-Keeps a

  pub gets-Keeps : (f : Vm → A) → Keeps (gets f)
  gets-Keeps f = record { step = refl-Step }

  pub if-Keeps : (b : Bool) {m k : Action A} → Keeps m → Keeps k → Keeps (if b then m else k)
  if-Keeps true f g = f
  if-Keeps false f g = g

  with_stack_of_step :
      (vm : Vm) (stack : List Expr) (r : Result A × Vm)
      → Step (record vm { stack = stack }) r.1
      → Step vm (with_stack_of vm r).1
  with_stack_of_step vm stack (ok a, vm') h = record {
    metered = h.metered;
    parents_same = h.parents_same;
    extends = h.extends;
  }
  with_stack_of_step vm stack (err x, vm') h = record {
    metered = h.metered;
    parents_same = h.parents_same;
    extends = h.extends;
  }

  pub on_stack-Keeps : (stack : List Expr) {m : Action A} → Keeps m → Keeps (on_stack stack m)
  unfolding on_stack
  on_stack-Keeps stack {m} f = record {
    step = λ vm.
        let vm' : Vm = record vm { stack = stack } in
        with_stack_of_step vm stack (m vm') (f.step vm');
  }

  back_step : (vm : Vm) (r : Result A × Vm) → Metered vm.meter r.1.meter → Step vm (back vm r).1
  back_step vm (ok a, vm') h = record {
    metered = h;
    parents_same = refl;
    extends = λ name value e. e;
  }
  back_step vm (err x, vm') h = record {
    metered = h;
    parents_same = refl;
    extends = λ name value e. e;
  }

  pub inside-Keeps :
      (stack : List Expr) (env : Env) {m : Action A} → Keeps m → Keeps (inside stack env m)
  unfolding inside
  inside-Keeps stack env {m} f = record {
    step = λ vm.
        let vm' : Vm = record vm { stack = stack; env = env } in
        back_step vm (m vm') (f.step vm').metered;
  }

next-Keeps :
    {A B : Type 0} (vm : Vm) (r : Result A × Vm) (f : A → Action B)
    → Step vm r.1
    → ((a : A) → Keeps (f a))
    → Step vm (next f r).1
next-Keeps vm (ok a, vm') f h g = trans-Step h ((g a).step vm')
next-Keeps vm (err e, vm') f h g = h

pub bind-Keeps :
    {A B : Type 0} {m : Action A} {f : A → Action B}
    → Keeps m
    → ((a : A) → Keeps (f a))
    → Keeps (m >>= f)
bind-Keeps {m = m} {f = f} h g = record { step = λ vm. next-Keeps vm (m vm) f (h.step vm) g }

-- The meter and the environment are not touched.
same_but_stack : (stack : List Expr) (vm : Vm) → Step vm (record vm { stack = stack })
same_but_stack stack vm = record {
  metered = refl-Metered vm.meter;
  parents_same = refl;
  extends = λ name value h. h;
}

pub push-Keeps : (e : Expr) → Keeps (push e)
unfolding push
push-Keeps e = record { step = λ vm. same_but_stack (e ∷ vm.stack) vm }

pop_of-Keeps : (stack : List Expr) (vm : Vm) → Step vm (pop_of stack vm).1
pop_of-Keeps [] vm = refl-Step vm
pop_of-Keeps (e ∷ rest) vm = same_but_stack rest vm

pub pop-Keeps : Keeps pop
unfolding pop
pop-Keeps = record { step = λ vm. pop_of-Keeps vm.stack vm }

pub charge-Keeps : (n : ℕ) → Keeps (spend n)
unfolding spend
charge-Keeps n = record {
  step = λ vm. record {
    metered = charge_bytes-Metered n vm.meter;
    parents_same = refl;
    extends = λ name value h. h;
  };
}

pub need-Keeps : (n : ℕ) → Keeps (need n)
unfolding need
need-Keeps n = record { step = refl-Step }

pub ruleset keep_rules = (
  bind-Keeps, push-Keeps, pop-Keeps, charge-Keeps, need-Keeps, if-Keeps, pure-Keeps, raise-Keeps,
  of_result-Keeps, or_raise-Keeps, gets-Keeps,
)
