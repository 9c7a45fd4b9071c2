-- ===== src/Machine/Operators/Arithmetic/Integers.antt =====
-- The operators on two integers, where the meter has no limit.
use lib_py.Base.{◌≡◌, refl, ◌≢◌, ◌⊎◌, false, none, ◌∷◌, arith}
use lib_py.Base.Int.{ℤ, pos, ◌+ℤ◌, ◌-ℤ◌, ◌*ℤ◌, ◌≤ℤ◌, ◌<ℤ◌, eqb_ℤ}
use lib_py.Expression.Expr.{int, get_expr_tag, get_int_from_expr, size, ok_of, err_of}
use lib_py.Machine.Vm.{Vm, ok, err, op_error, push, pop, spend, Action}
use lib_py.Machine.Operators.Result.{with_top}
use Prim.Native.String.{String}
use lib_py.Machine.Vm.Charges.{charge_unlimited, bind_ok}
use lib_py.Machine.Operators.Arithmetic.{
  on_numbers, push_result, handle_stack_add, handle_stack_sub, handle_stack_mul, handle_stack_div,
  handle_stack_mod, floor_div, floor_mod, divided, handle_stack_add_with_result,
  handle_stack_sub_with_result, handle_stack_mul_with_result, handle_stack_div_with_result,
  handle_stack_mod_with_result,
}
use lib_py.Machine.Operators.Arithmetic.Division.{floor_div-floor_mod}

-- Two integers on the stack, the second on the top, and one in their place.
abbrev pub with_two : ℤ → ℤ → Vm → Vm
with_two x y vm = record vm { stack = int y ∷ int x ∷ vm.stack }

abbrev pub with_one : ℤ → Vm → Vm
with_one v vm = record vm { stack = int v ∷ vm.stack }

push_result_unlimited :
    (v : ℤ) (vm : Vm) → vm.meter.limit ≡ none → push_result (int v) vm ≡ (ok tt, with_one v vm)
unfolding push
push_result_unlimited v vm e = bind_ok (spend (size (int v))) _ (charge_unlimited _ vm e)

eqb_of_nonzero : (y : ℤ) → y ≢ pos 0 → eqb_ℤ y (pos 0) ≡ false
eqb_of_nonzero y h = ground arith

-- Sums, differences and products: with two integers on the stack and no limit on the meter, `+`, `-`
-- and `*` put the sum, the difference and the product of the lower and the upper in their place.
pub handle_stack_ring :
    (x y : ℤ) (vm : Vm)
    → vm.meter.limit ≡ none
    → (handle_stack_add (with_two x y vm) ≡ (ok tt, with_one (x +ℤ y) vm))
      × (handle_stack_sub (with_two x y vm) ≡ (ok tt, with_one (x -ℤ y) vm))
      × (handle_stack_mul (with_two x y vm) ≡ (ok tt, with_one (x *ℤ y) vm))
unfolding handle_stack_add handle_stack_sub handle_stack_mul pop on_numbers get_expr_tag
    get_int_from_expr
handle_stack_ring x y vm e = (
  push_result_unlimited (x +ℤ y) vm e,
  push_result_unlimited (x -ℤ y) vm e,
  push_result_unlimited (x *ℤ y) vm e,
)

-- `/` and `%` are the floor division: with two integers on the stack, the upper not 0, and no limit
-- on the meter, they put a quotient and a remainder in their place. The quotient times the upper
-- integer plus the remainder is the lower integer; the remainder is 0 or has the sign of the upper
-- integer, and is smaller in magnitude. With 0 as the upper integer both raise an OpError, and the
-- two integers are gone from the stack.
pub handle_stack_division :
    (x y : ℤ) (vm : Vm)
    → vm.meter.limit ≡ none
    → y ≢ pos 0
    → ((q : ℤ) × (r : ℤ) × (handle_stack_div (with_two x y vm) ≡ (ok tt, with_one q vm))
        × (handle_stack_mod (with_two x y vm) ≡ (ok tt, with_one r vm))
        × (x ≡ q *ℤ y +ℤ r)
        × (((pos 0 ≤ℤ r) × (r <ℤ y)) ⊎ ((y <ℤ r) × (r ≤ℤ pos 0))))
      × (handle_stack_div (with_two x (pos 0) vm) ≡ (err (op_error "division by zero"), vm))
      × (handle_stack_mod (with_two x (pos 0) vm) ≡ (err (op_error "modulo by zero"), vm))
unfolding handle_stack_div handle_stack_mod pop on_numbers get_expr_tag get_int_from_expr divided
handle_stack_division x y vm e nonzero =
    let test = eqb_of_nonzero y nonzero in
    let (sum, bound) = floor_div-floor_mod x y nonzero in
    (
      (
        floor_div x y,
        floor_mod x y,
        rw test (push_result_unlimited (floor_div x y) vm e),
        rw test (push_result_unlimited (floor_mod x y) vm e),
        sum,
        bound,
      ),
      refl,
      refl,
    )

-- A result in a link with the tag "ok", or a message in one with "err".
abbrev pub with_ok : ℤ → Vm → Vm
with_ok v vm = record vm { stack = ok_of (int v) ∷ vm.stack }

abbrev pub with_err : String → Vm → Vm
with_err message vm = record vm { stack = err_of message ∷ vm.stack }

with_top-ok :
    (handler : Action (Unit {0})) (before vm : Vm) (v : ℤ)
    → handler before ≡ (ok tt, with_one v vm)
    → with_top handler before ≡ (ok tt, with_ok v vm)
unfolding with_top push pop
with_top-ok handler before vm v e = rw (with_top, e) refl

with_top-err :
    (handler : Action (Unit {0})) (before vm : Vm) (message : String)
    → handler before ≡ (err (op_error message), vm)
    → with_top handler before ≡ (ok tt, with_err message vm)
unfolding with_top push
with_top-err handler before vm message e = rw (with_top, e) refl

-- The variants with a result, on two integers and without a limit on the meter: `+?`, `-?` and `*?`
-- leave the sum, the difference and the product under the tag "ok", and so do `/?` and `%?` the
-- quotient and the remainder of the floor division if the upper integer is not 0. If it is, `/?` and
-- `%?` end without an error and leave its message under the tag "err". The two integers are gone
-- from the stack in each case.
pub with_result_integers :
    (x y : ℤ) (vm : Vm)
    → vm.meter.limit ≡ none
    → y ≢ pos 0
    → (handle_stack_add_with_result (with_two x y vm) ≡ (ok tt, with_ok (x +ℤ y) vm))
      × (handle_stack_sub_with_result (with_two x y vm) ≡ (ok tt, with_ok (x -ℤ y) vm))
      × (handle_stack_mul_with_result (with_two x y vm) ≡ (ok tt, with_ok (x *ℤ y) vm))
      × ((q : ℤ) × (r : ℤ) × (handle_stack_div_with_result (with_two x y vm)
            ≡ (ok tt, with_ok q vm))
          × (handle_stack_mod_with_result (with_two x y vm) ≡ (ok tt, with_ok r vm))
          × (x ≡ q *ℤ y +ℤ r)
          × (((pos 0 ≤ℤ r) × (r <ℤ y)) ⊎ ((y <ℤ r) × (r ≤ℤ pos 0))))
      × (handle_stack_div_with_result (with_two x (pos 0) vm)
          ≡ (ok tt, with_err "division by zero" vm))
      × (handle_stack_mod_with_result (with_two x (pos 0) vm)
          ≡ (ok tt, with_err "modulo by zero" vm))
unfolding handle_stack_add_with_result handle_stack_sub_with_result handle_stack_mul_with_result
    handle_stack_div_with_result handle_stack_mod_with_result
with_result_integers x y vm e nonzero =
    let (plus, minus, times) = handle_stack_ring x y vm e in
    let ((q, r, quotient, remainder, sum, bound), div_zero, mod_zero) =
      handle_stack_division x y vm e nonzero in
    (
      with_top-ok handle_stack_add _ vm _ plus,
      with_top-ok handle_stack_sub _ vm _ minus,
      with_top-ok handle_stack_mul _ vm _ times,
      (
        q,
        r,
        with_top-ok handle_stack_div _ vm q quotient,
        with_top-ok handle_stack_mod _ vm r remainder,
        sum,
        bound,
      ),
      with_top-err handle_stack_div _ vm _ div_zero,
      with_top-err handle_stack_mod _ vm _ mod_zero,
    )
