-- ===== src/Machine/Operators/Arithmetic.antt =====
-- The operators on integers: src/astreum/machine/operators/arithmetic. Floats are not modelled.
pub mod Division
pub mod Integers
use Prim.Native.String.{String, ◌++◌}
use text.Mathlib.Text.{◌==◌}
use lib_py.Base.{ℕ, zero, suc, ◌-◌, ◌/◌, ◌%◌, Bool, ◌&&◌, ◌||◌, if◌then◌else◌}
use lib_py.Base.Int.{ℤ, pos, negsuc, ◌+ℤ◌, ◌-ℤ◌, ◌*ℤ◌, eqb_ℤ}
use lib_py.Expression.Number.{magnitude}
use lib_py.Expression.Expr.{Expr, int, get_expr_tag, get_int_from_expr, is_float_tag, size}
use lib_py.Machine.Vm.{
  Action, Error, op_error, crash, outside, next, ◌>>=◌, ◌>>◌, pure, raise, or_raise, push, pop,
  spend,
}
use lib_py.Machine.Operators.Result.{with_top}

-- `f"{verb} of {a_tag} and {b_tag}"`.
abbrev pub of_and : String → String → String → Error
of_and verb a b = op_error (verb ++ " of " ++ a ++ " and " ++ b)

-- A message with tags in lower case is modelled for the tags of the library, which are so already.
abbrev pub is_lower : String → Bool
is_lower t =
    t == "int"
    || t == "str"
    || t == "bytes"
    || t == "symbol"
    || t == "link"
    || t == "ok"
    || t == "err"
    || is_float_tag t

abbrev pub of_and_lower : String → String → String → Error
of_and_lower verb a b = if is_lower a && is_lower b then of_and verb a b else outside

-- The branch of two integers, of which each may be a ValueError or a TypeError to read.
abbrev pub of_integers : (ℤ → ℤ → Action ℤ) → Expr → Expr → Action Expr
of_integers f a b = do
  x ← or_raise crash (get_int_from_expr a)
  y ← or_raise crash (get_int_from_expr b)
  v ← f x y
  pure (int v)

-- The branches of a binary operator on the tags; those of two floats are left out.
unfoldable pub on_numbers :
    (String → String → Error) → (ℤ → ℤ → Action ℤ) → Expr → Expr → Action Expr
on_numbers refuse f a b =
    let a_tag = get_expr_tag a in
    let b_tag = get_expr_tag b in
    if a_tag == "int" && b_tag == "int"
    then of_integers f a b
    else if is_float_tag a_tag && is_float_tag b_tag
    then raise outside
    else raise (refuse a_tag b_tag)

abbrev pub push_result : Expr → Action (Unit {0})
push_result r = do spend (size r); push r

unfoldable pub handle_stack_add : Action (Unit {0})
handle_stack_add = do
  b ← pop
  a ← pop
  r ← on_numbers (of_and "addition") (λ x y. pure (x +ℤ y)) a b
  push_result r

unfoldable pub handle_stack_sub : Action (Unit {0})
handle_stack_sub = do
  b ← pop
  a ← pop
  r ← on_numbers (of_and "subtraction") (λ x y. pure (x -ℤ y)) a b
  push_result r

unfoldable pub handle_stack_mul : Action (Unit {0})
handle_stack_mul = do
  b ← pop
  a ← pop
  r ← on_numbers (of_and_lower "multiplication") (λ x y. pure (x *ℤ y)) a b
  push_result r

-- -n.
abbrev pub negative : ℕ → ℤ
negative zero = pos 0
negative (suc n) = negsuc n

-- Python's `//` and `%`, for a divisor that is not 0.
unfoldable pub floor_div : ℤ → ℤ → ℤ
floor_div (pos a) (pos b) = pos (a / b)
floor_div (negsuc a) (pos b) = negsuc (a / b)
floor_div (pos zero) (negsuc b) = pos 0
floor_div (pos (suc a)) (negsuc b) = negsuc (a / suc b)
floor_div (negsuc a) (negsuc b) = pos (suc a / suc b)

unfoldable pub floor_mod : ℤ → ℤ → ℤ
floor_mod (pos a) (pos b) = pos (a % b)
floor_mod (negsuc a) (pos b) = pos (b - 1 - a % b)
floor_mod (pos zero) (negsuc b) = pos 0
floor_mod (pos (suc a)) (negsuc b) = negative (b - a % suc b)
floor_mod (negsuc a) (negsuc b) = negative (suc a % suc b)

-- The ZeroDivisionError becomes an OpError.
unfoldable pub divided : String → (ℤ → ℤ → ℤ) → ℤ → ℤ → Action ℤ
divided verb f x y = if eqb_ℤ y (pos 0) then raise (op_error (verb ++ " by zero")) else pure (f x y)

unfoldable pub handle_stack_div : Action (Unit {0})
handle_stack_div = do
  b ← pop
  a ← pop
  r ←
      on_numbers (λ s t. op_error ("division by " ++ s ++ " and " ++ t))
        (divided "division" floor_div) a b
  push_result r

-- `%` has no branch for floats.
abbrev pub on_integers : (String → String → Error) → (ℤ → ℤ → Action ℤ) → Expr → Expr → Action Expr
on_integers refuse f a b =
    let a_tag = get_expr_tag a in
    let b_tag = get_expr_tag b in
    if a_tag == "int" && b_tag == "int" then of_integers f a b else raise (refuse a_tag b_tag)

unfoldable pub handle_stack_mod : Action (Unit {0})
handle_stack_mod = do
  b ← pop
  a ← pop
  r ← on_integers (of_and_lower "modulo") (divided "modulo" floor_mod) a b
  push_result r

unfoldable pub absolute : Expr → Action Expr
absolute v =
    let tag = get_expr_tag v in
    if tag == "int"
    then (do x ← or_raise crash (get_int_from_expr v); pure (int (pos (magnitude x))))
    else if is_float_tag tag
    then raise outside
    else raise (if is_lower tag then op_error ("absolute value of " ++ tag) else outside)

unfoldable pub handle_stack_abs : Action (Unit {0})
handle_stack_abs = do v ← pop; r ← absolute v; push_result r

unfoldable pub handle_stack_add_with_result : Action (Unit {0})
handle_stack_add_with_result = with_top handle_stack_add

unfoldable pub handle_stack_sub_with_result : Action (Unit {0})
handle_stack_sub_with_result = with_top handle_stack_sub

unfoldable pub handle_stack_mul_with_result : Action (Unit {0})
handle_stack_mul_with_result = with_top handle_stack_mul

unfoldable pub handle_stack_div_with_result : Action (Unit {0})
handle_stack_div_with_result = with_top handle_stack_div

unfoldable pub handle_stack_mod_with_result : Action (Unit {0})
handle_stack_mod_with_result = with_top handle_stack_mod

unfoldable pub handle_stack_abs_with_result : Action (Unit {0})
handle_stack_abs_with_result = with_top handle_stack_abs
