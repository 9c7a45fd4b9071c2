-- ===== src/Machine/Operators/Arithmetic/Division.antt =====
-- Python's floor division: the quotient times the divisor plus the remainder is the dividend.
use native.Mathlib.Nat.{div-add-mod, mod-lt}
use lib_py.Base.{zero, suc, ◌≡◌, refl, ◌≢◌, ◌⊎◌, arith}
use lib_py.Base.Int.{ℤ, pos, negsuc, ◌+ℤ◌, ◌*ℤ◌, ◌≤ℤ◌, ◌<ℤ◌}
use lib_py.Machine.Operators.Arithmetic.{floor_div, floor_mod}

pub floor_div-floor_mod :
    (x y : ℤ)
    → y ≢ pos 0
    → (x ≡ floor_div x y *ℤ y +ℤ floor_mod x y)
      × (((pos 0 ≤ℤ floor_mod x y) × (floor_mod x y <ℤ y))
          ⊎ ((y <ℤ floor_mod x y) × (floor_mod x y ≤ℤ pos 0)))
unfolding floor_div floor_mod ◌+ℤ◌ ◌*ℤ◌
floor_div-floor_mod x (pos zero) h = absurd (h refl)
floor_div-floor_mod (pos a) (pos (suc b)) h =
    ground (arith, div-add-mod a (suc b), mod-lt a {m = suc b} (omega arith))
floor_div-floor_mod (negsuc a) (pos (suc b)) h =
    ground (arith, div-add-mod a (suc b), mod-lt a {m = suc b} (omega arith))
floor_div-floor_mod (pos zero) (negsuc b) h = ground arith
floor_div-floor_mod (pos (suc a)) (negsuc b) h =
    ground (arith, div-add-mod a (suc b), mod-lt a {m = suc b} (omega arith))
floor_div-floor_mod (negsuc a) (negsuc b) h =
    ground (arith, div-add-mod (suc a) (suc b), mod-lt (suc a) {m = suc b} (omega arith))
