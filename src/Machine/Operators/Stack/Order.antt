-- ===== src/Machine/Operators/Stack/Order.antt =====
-- The operators that move the values of the stack.
use lib_py.Base.{ℕ, ◌≡◌, refl, ◌∙◌, false, none, List, ◌∷◌, length, ltb, arith}
use lib_py.Expression.Expr.{Expr, size}
use lib_py.Machine.Vm.{Vm, ok, ◌>>◌, push, pop, spend, need}
use lib_py.Machine.Vm.Charges.{charge_unlimited, bind_ok}
use lib_py.Machine.Operators.Stack.{
  handle_stack_drop, handle_stack_dup, handle_stack_swap, handle_stack_rot,
}

-- A stack in place of that of the state.
abbrev pub on : List Expr → Vm → Vm
on stack vm = record vm { stack = stack }

enough : (n : ℕ) (vm : Vm) → ltb (length vm.stack) n ≡ false → need n vm ≡ (ok tt, vm)
unfolding need
enough n vm e = rw e refl

drop_top :
    (a : Expr) (vm : Vm)
    → vm.meter.limit ≡ none
    → handle_stack_drop (on (a ∷ vm.stack) vm) ≡ (ok tt, vm)
unfolding handle_stack_drop pop
drop_top a vm e =
    bind_ok (need 1) _ (enough 1 (on (a ∷ vm.stack) vm) (ground arith)) ∙ charge_unlimited 1 vm e

dup_top :
    (a : Expr) (vm : Vm)
    → vm.meter.limit ≡ none
    → handle_stack_dup (on (a ∷ vm.stack) vm) ≡ (ok tt, on (a ∷ a ∷ vm.stack) vm)
unfolding handle_stack_dup pop push
dup_top a vm e =
    bind_ok (need 1) _ (enough 1 (on (a ∷ vm.stack) vm) (ground arith))
    ∙ bind_ok (spend (size a)) _ (charge_unlimited (size a) vm e)

swap_top :
    (a b : Expr) (vm : Vm)
    → vm.meter.limit ≡ none
    → handle_stack_swap (on (b ∷ a ∷ vm.stack) vm) ≡ (ok tt, on (a ∷ b ∷ vm.stack) vm)
unfolding handle_stack_swap pop push
swap_top a b vm e =
    bind_ok (need 2) _ (enough 2 (on (b ∷ a ∷ vm.stack) vm) (ground arith))
    ∙ bind_ok (spend 1) _ (charge_unlimited 1 vm e)

rot_top :
    (a b c : Expr) (vm : Vm)
    → vm.meter.limit ≡ none
    → handle_stack_rot (on (c ∷ b ∷ a ∷ vm.stack) vm) ≡ (ok tt, on (a ∷ c ∷ b ∷ vm.stack) vm)
unfolding handle_stack_rot pop push
rot_top a b c vm e =
    bind_ok (need 3) _ (enough 3 (on (c ∷ b ∷ a ∷ vm.stack) vm) (ground arith))
    ∙ bind_ok (spend 3) _ (charge_unlimited 3 vm e)

-- The operators on the stack undo one another: with three values on the stack and no limit on the
-- meter, `dup` and then `drop`, `swap` twice, and `rot` three times give the state that was there.
pub stack_round :
    (a b c : Expr) (vm : Vm)
    → vm.meter.limit ≡ none
    → let start = on (c ∷ b ∷ a ∷ vm.stack) vm in
      ((do handle_stack_dup; handle_stack_drop) start ≡ (ok tt, start))
      × ((do handle_stack_swap; handle_stack_swap) start ≡ (ok tt, start))
      × ((do handle_stack_rot; handle_stack_rot; handle_stack_rot) start ≡ (ok tt, start))
stack_round a b c vm e = (
  bind_ok handle_stack_dup _ (dup_top c (on (b ∷ a ∷ vm.stack) vm) e)
      ∙ drop_top c (on (c ∷ b ∷ a ∷ vm.stack) vm) e,
  bind_ok handle_stack_swap _ (swap_top b c (on (a ∷ vm.stack) vm) e)
      ∙ swap_top c b (on (a ∷ vm.stack) vm) e,
  bind_ok handle_stack_rot _ (rot_top a b c vm e)
      ∙ bind_ok handle_stack_rot _ (rot_top b c a vm e)
      ∙ rot_top c a b vm e,
)
