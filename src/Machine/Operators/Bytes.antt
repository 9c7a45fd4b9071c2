-- ===== src/Machine/Operators/Bytes.antt =====
-- The operators on bytes: src/astreum/machine/operators/bytes. `rotate` and floats are not modelled.
pub mod Bits
pub mod Width
pub mod Steps
use Prim.Native.String.{String, ◌++◌}
use text.Mathlib.Text.{◌==◌}
use lib_py.Base.{
  ℕ, zero, suc, ◌+◌, ◌-◌, ◌*◌, ◌/◌, ◌%◌, ◌^◌, max, Bool, not, ◌&&◌, ◌||◌, Option, none, some, List,
  [], ◌∷◌, length, if◌then◌else◌, ltb,
}
use lib_py.Base.Int.{ℤ, pos, negsuc}
use lib_py.Base.Bits.{bit_length}
use lib_py.Base.Bytes.{Bytes}
use lib_py.Expression.Number.{little_endian, from_little_endian, encode_int}
use lib_py.Expression.Expr.{Expr, bytes, int, symbol, str, get_expr_tag, is_float_tag, size}
use lib_py.Machine.Vm.{
  Action, Error, op_error, crash, outside, next, ◌>>=◌, ◌>>◌, pure, raise, or_raise, push, pop,
  spend,
}
use lib_py.Machine.Operators.Result.{with_top}
use lib_py.Machine.Operators.Arithmetic.{is_lower, of_and_lower, push_result}

-- A bitwise operation on the numbers below 2 ^ bits.
unfoldable pub bitwise : (ℕ → ℕ → ℕ) → ℕ → ℕ → ℕ → ℕ
bitwise f zero x y = 0
bitwise f (suc bits) x y = f (x % 2) (y % 2) + 2 * bitwise f bits (x / 2) (y / 2)

abbrev pub bit_and : ℕ → ℕ → ℕ
bit_and a b = a * b

abbrev pub bit_or : ℕ → ℕ → ℕ
bit_or a b = a + b - a * b

abbrev pub bit_xor : ℕ → ℕ → ℕ
bit_xor a b = (a + b) % 2

-- The attribute `value` of an expression with the tag "bytes"; in a link with that tag it is None.
abbrev pub bytes_of : Expr → Option Bytes
bytes_of (bytes b) = some b
bytes_of _ = none

-- The guard, the charge and the operation of the three binary operators.
abbrev pub on_bytes : String → (Bytes → Bytes → Bytes) → Action (Unit {0})
on_bytes verb f = do
  b ← pop
  a ← pop
  let a_tag = get_expr_tag a
  let b_tag = get_expr_tag b
  if a_tag == "bytes" && b_tag == "bytes"
      then (do
        x ← or_raise crash (bytes_of a)
        y ← or_raise crash (bytes_of b)
        spend (max (length x) (length y))
        push (bytes (f x y)))
      else raise (of_and_lower ("bitwise " ++ verb) a_tag b_tag)

-- The operation on the two little-endian numbers.
abbrev pub combine : (ℕ → ℕ → ℕ) → Bytes → Bytes → ℕ
combine f x y =
    bitwise f (8 * max (length x) (length y)) (from_little_endian x) (from_little_endian y)

-- `r.to_bytes(r.bit_length() or 1, "little")`.
abbrev pub to_bytes_by_bits : ℕ → Bytes
to_bytes_by_bits r = little_endian (max 1 (bit_length r)) r

unfoldable pub handle_stack_and : Action (Unit {0})
handle_stack_and = on_bytes "and" (λ x y. to_bytes_by_bits (combine bit_and x y))

unfoldable pub handle_stack_or : Action (Unit {0})
handle_stack_or = on_bytes "or" (λ x y. to_bytes_by_bits (combine bit_or x y))

abbrev pub to_bytes_by_bytes : ℕ → Bytes
to_bytes_by_bytes r = little_endian (max ((bit_length r + 7) / 8) 1) r

unfoldable pub handle_stack_xor : Action (Unit {0})
handle_stack_xor = on_bytes "xor" (λ x y. to_bytes_by_bytes (combine bit_xor x y))

-- `(~au & mask).to_bytes(w, "little")`.
abbrev pub complement : Bytes → Bytes
complement x = let w = max (length x) 1 in little_endian w (256 ^ w - 1 - from_little_endian x)

unfoldable pub handle_stack_not : Action (Unit {0})
handle_stack_not = do
  a ← pop
  let tag = get_expr_tag a
  if not (tag == "bytes")
      then raise (if is_lower tag then op_error ("bitwise not of " ++ tag) else outside)
      else (do x ← or_raise crash (bytes_of a); spend (length x * 2); push (bytes (complement x)))

-- A shift of bytes within their width, and of an integer.
abbrev pub shift_bytes : ℤ → Bytes → Bytes
shift_bytes (pos k) x = little_endian (length x) (from_little_endian x * 2 ^ k % 256 ^ length x)
shift_bytes (negsuc k) x = little_endian (length x) (from_little_endian x / 2 ^ suc k)

abbrev pub shift_int : ℤ → ℤ → ℤ
shift_int (pos k) (pos v) = pos (v * 2 ^ k)
shift_int (pos k) (negsuc v) = negsuc (suc v * 2 ^ k - 1)
shift_int (negsuc k) (pos v) = pos (v / 2 ^ suc k)
shift_int (negsuc k) (negsuc v) = negsuc (v / 2 ^ suc k)

abbrev pub shift_by : ℤ → Expr → Action (Unit {0})
shift_by (pos zero) e = do spend (size e); push e
shift_by k (bytes x) = do spend (length x); push (bytes (shift_bytes k x))
shift_by k (int v) = do spend (size (int v)); push (int (shift_int k v))
shift_by k e = raise crash

-- The integer of the shift; in a link with the tag "int" the attribute is None, a TypeError.
abbrev pub int_of : Expr → Option ℤ
int_of (int v) = some v
int_of _ = none

unfoldable pub handle_stack_shift : Action (Unit {0})
handle_stack_shift = do
  shifts ← pop
  to_shift ← pop
  let a_tag = get_expr_tag to_shift
  let b_tag = get_expr_tag shifts
  if (a_tag == "bytes" || a_tag == "int") && b_tag == "int"
      then (do k ← or_raise crash (int_of shifts); shift_by k to_shift)
      else raise (
          if is_lower a_tag && is_lower b_tag
          then op_error ("shift of " ++ a_tag ++ " by " ++ b_tag)
          else outside)

unfoldable pub handle_stack_and_with_result : Action (Unit {0})
handle_stack_and_with_result = with_top handle_stack_and

unfoldable pub handle_stack_or_with_result : Action (Unit {0})
handle_stack_or_with_result = with_top handle_stack_or

unfoldable pub handle_stack_xor_with_result : Action (Unit {0})
handle_stack_xor_with_result = with_top handle_stack_xor

unfoldable pub handle_stack_not_with_result : Action (Unit {0})
handle_stack_not_with_result = with_top handle_stack_not

unfoldable pub handle_stack_shift_with_result : Action (Unit {0})
handle_stack_shift_with_result = with_top handle_stack_shift
