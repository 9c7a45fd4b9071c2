-- ===== src/Expression/Expr.antt =====
-- Expressions, their tags, sizes and numbers: src/astreum/expression/{expr,helpers}.py.
-- A cell that is known by its hash alone, and a float, are not modelled.
use Prim.Native.String.{String, len}
use text.Mathlib.Text.{◌==◌ as ◌==s◌}
use lib_py.Base.{
  ℕ, ◌+◌, Bool, true, false, ◌||◌, Option, none, some, [], ◌∷◌, length, if◌then◌else◌,
}
use lib_py.Base.Int.{ℤ}
use lib_py.Base.Bytes.{Bytes}
use lib_py.Expression.Number.{encode_int, decode_int}

-- `int` and `str` are links that hold a value and the symbol of their type; `nil` is the object NIL,
-- and `link missing missing` a new link that is equal to it in all but its identity.
mutual
  pub data Expr : Type 0 where
    symbol : String → Expr
    bytes : Bytes → Expr
    int : ℤ → Expr
    str : String → Expr
    nil : Expr
    link : Slot → Slot → Expr

  -- The head and the tail of a link: None, or an expression.
  pub data Slot : Type 0 where
    missing : Slot
    here : Expr → Slot

-- The attributes `head` and `tail`.
unfoldable pub head_of : Expr → Slot
head_of (link h t) = h
head_of _ = missing

unfoldable pub tail_of : Expr → Slot
tail_of (link h t) = t
tail_of (int v) = here (symbol "int")
tail_of (str s) = here (symbol "str")
tail_of _ = missing

-- `FLOAT_TAGS`, and `BUILTIN_COMPOSITE_TYPE_NAMES`.
unfoldable pub is_float_tag : String → Bool
is_float_tag t =
    t ==s "e4m3" || t ==s "e5m2" || t ==s "fp16" || t ==s "bf16" || t ==s "fp32" || t ==s "fp64"

unfoldable pub is_composite_name : String → Bool
is_composite_name t = t ==s "int" || t ==s "str" || is_float_tag t

unfoldable pub get_expr_builtin_tag : Expr → String
get_expr_builtin_tag (symbol s) = "symbol"
get_expr_builtin_tag (bytes b) = "bytes"
get_expr_builtin_tag (int v) = "int"
get_expr_builtin_tag (str s) = "str"
get_expr_builtin_tag (link h (here (symbol t))) = if is_composite_name t then t else "link"
get_expr_builtin_tag _ = "link"

unfoldable pub get_expr_tag : Expr → String
get_expr_tag (symbol s) = "symbol"
get_expr_tag (bytes b) = "bytes"
get_expr_tag (int v) = "int"
get_expr_tag (str s) = "str"
get_expr_tag (link h (here (symbol t))) = t
get_expr_tag _ = "link"

unfoldable pub is_builtin_composite : Expr → Bool
is_builtin_composite (int v) = true
is_builtin_composite (str s) = true
is_builtin_composite (link (here (bytes b)) (here (symbol t))) = is_composite_name t
is_builtin_composite _ = false

unfoldable mutual
  -- A method of Expr; the cache of its result is left out.
  pub size : Expr → ℕ
  size (symbol s) = len s
  size (bytes b) = length b
  size (int v) = length (encode_int v)
  size (str s) = len s
  size nil = 64
  size (link (here (bytes b)) t) = length b
  size (link h t) = slot_size h + slot_size t

  pub slot_size : Slot → ℕ
  slot_size missing = 32
  slot_size (here e) = size e

-- The integer of an expression with the tag "int"; `none` is a ValueError or a TypeError of the
-- functions get_int_from_expr, get_expr_value and _decode_int.
unfoldable pub get_int_from_expr : Expr → Option ℤ
get_int_from_expr (int v) = some v
get_int_from_expr (link (here (bytes b)) t) = some (decode_int b)
get_int_from_expr (link (here (int v)) t) = some v
get_int_from_expr _ = none

-- The constructor helpers of the results that the operators push.
abbrev pub ok_of : Expr → Expr
ok_of e = link (here e) (here (symbol "ok"))

abbrev pub err_of : String → Expr
err_of message = link (here (str message)) (here (symbol "err"))

-- b"\x01" and b"\x00".
abbrev pub flag : Bool → Expr
flag true = bytes (1 ∷ [])
flag false = bytes (0 ∷ [])
