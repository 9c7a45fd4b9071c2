-- ===== src/Machine/Operators/Bytes/Width.antt =====
-- The results of `&` and `~`, where the meter has no limit.
use lib_py.Base.{◌*◌, ◌≡◌, refl, ap, ◌∙◌, ◌≤◌, max, none, ◌∷◌, length}
use lib_py.Base.Bits.{bit_length}
use lib_py.Base.Bytes.{Bytes, AreBytes}
use lib_py.Expression.Number.{from_little_endian}
use lib_py.Expression.Number.RoundTrip.{length-little_endian}
use lib_py.Expression.Expr.{bytes, get_expr_tag}
use lib_py.Machine.Vm.{Vm, ok, ◌>>◌, push, pop, spend}
use lib_py.Machine.Vm.Charges.{charge_unlimited, bind_ok}
use lib_py.Machine.Operators.Stack.Order.{on}
use lib_py.Machine.Operators.Bytes.{
  combine, bit_and, to_bytes_by_bits, complement, handle_stack_and, handle_stack_not,
}
use lib_py.Machine.Operators.Bytes.Bits.{combine_same, from-to_bytes_by_bits, complement_twice}

-- `&` keeps the number and not the width: of bytes with themselves, where the meter has no limit, it
-- gives bytes of the same little-endian number, but as many bytes as the number has bits (one, where
-- the number is 0).
pub handle_stack_and-length :
    (x : Bytes) (vm : Vm)
    → AreBytes x
    → vm.meter.limit ≡ none
    → (r : Bytes) × (handle_stack_and (on (bytes x ∷ bytes x ∷ vm.stack) vm)
        ≡ (ok tt, on (bytes r ∷ vm.stack) vm))
      × (from_little_endian r ≡ from_little_endian x)
      × (length r ≡ max 1 (bit_length (from_little_endian x)))
unfolding handle_stack_and pop push get_expr_tag
handle_stack_and-length x vm h e =
    let same = combine_same x h in
    (
      to_bytes_by_bits (combine bit_and x x),
      bind_ok (spend (max (length x) (length x))) _ (charge_unlimited _ vm e),
      from-to_bytes_by_bits (combine bit_and x x) ∙ same,
      rw
          (
            length-little_endian (max 1 (bit_length (combine bit_and x x))) (combine bit_and x x),
            same,
          )
          refl,
    )

complement_top :
    (x : Bytes) (vm : Vm)
    → vm.meter.limit ≡ none
    → handle_stack_not (on (bytes x ∷ vm.stack) vm)
      ≡ (ok tt, on (bytes (complement x) ∷ vm.stack) vm)
unfolding handle_stack_not pop push get_expr_tag
complement_top x vm e = bind_ok (spend (length x * 2)) _ (charge_unlimited _ vm e)

-- `~` is its own inverse: twice on bytes that are not empty, where the meter has no limit, it leaves
-- the state as it was.
pub handle_stack_not_twice :
    (x : Bytes) (vm : Vm)
    → AreBytes x
    → 1 ≤ length x
    → vm.meter.limit ≡ none
    → (do handle_stack_not; handle_stack_not) (on (bytes x ∷ vm.stack) vm)
      ≡ (ok tt, on (bytes x ∷ vm.stack) vm)
handle_stack_not_twice x vm h some_bytes e =
    bind_ok handle_stack_not _ (complement_top x vm e)
    ∙ complement_top (complement x) vm e
    ∙ ap (λ y. (ok tt, on (bytes y ∷ vm.stack) vm)) (complement_twice x h some_bytes)
