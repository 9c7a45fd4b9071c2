-- ===== src/Machine/Evaluator/Tests.antt =====
-- Runs of small programs, and the theorems at concrete inputs.
use lib_py.Base.{◌≡◌, refl, ◌⊎◌, Option, some, none, List, [], ◌∷◌, arith, max, length}
use lib_py.Base.Int.{ℤ, pos, negsuc, ◌≤ℤ◌, ◌<ℤ◌, ◌+ℤ◌, ◌-ℤ◌, ◌*ℤ◌}
use lib_py.Expression.Expr.{
  bytes, Expr, here, symbol, int, nil, link, size, is_builtin_composite, get_expr_tag,
  get_int_from_expr, head_of,
}
use lib_py.Expression.Number.{encode_int, decode_int, little_endian, int_bytes, from_little_endian}
use lib_py.Base.Bits.{bit_length}
use lib_py.Machine.Operators.Flow.{handle_stack_def, define, define_new}
use lib_py.Machine.Meter.{add_charge, new_meter, total, charge_bytes, charge as charge_meter}
use lib_py.Machine.Operators.Arithmetic.{
  handle_stack_add_with_result, handle_stack_sub_with_result, handle_stack_mul_with_result,
  handle_stack_div_with_result, handle_stack_mod_with_result, on_numbers, handle_stack_add,
  handle_stack_div, handle_stack_mod,
}
use lib_py.Machine.Operators.Arithmetic.Integers.{
  with_ok, with_err, with_result_integers, with_two, with_one, handle_stack_division,
}
use lib_py.Machine.Evaluator.{
  evaluate_quotation, evaluation, run_machine, evaluate_expr, evaluate_symbol, guarded, push_bound,
}
use lib_py.Machine.Vm.{
  need, Vm, Env, env_get, frame_get, frames_get, inside, push, pop, spend, Result, ok, err,
  op_error, ◌>>◌,
}
use lib_py.Machine.Evaluator.Names.{is_operator, is_blocked}
use lib_py.Expression.Number.RoundTrip.{decode-encode_int}
use lib_py.Machine.Operators.Stack.Order.{on}
use lib_py.Machine.Operators.Expression.{handle_stack_quote, handle_stack_eval}
use lib_py.Base.Bytes.{Bytes}
use lib_py.Machine.Operators.Bytes.{handle_stack_and}
use lib_py.Machine.Operators.Bytes.Width.{handle_stack_and-length}
use lib_py.Machine.Evaluator.Table.{deterministic, apply_operator, find_handler, operator_table}
use lib_py.Machine.Evaluator.Contained.{
  Contained, evaluation_metered, evaluation_write_once, evaluation-Contained,
}
use lib_py.Machine.Evaluator.Endless.{Endless, four, rec-Endless}
use lib_py.Machine.Evaluator.Quotation.{after_quote_eval, quote-eval}

-- `_build_chain` of a program that is not empty.
abbrev chain : List Expr → Expr
chain [] = nil
chain (e ∷ es) = link (here e) (here (chain es))

abbrev quoted : Expr → Expr
quoted e = chain (symbol "'" ∷ e ∷ [])

abbrev an_env : Env
an_env = record { frame = ("x", int (pos 5)) ∷ []; parents = [] }

abbrev start : Option ℤ → Vm
start limit = record { stack = []; env = an_env; meter = new_meter limit }

abbrev outcome : List Expr → Result Expr
outcome program = (run_machine deterministic 9 (chain program) an_env (start none)).0

abbrev sum : List Expr
sum = int (pos 1) ∷ symbol "x" ∷ symbol "+" ∷ []

abbrev countdown : List Expr
countdown =
    int (pos 2)
    ∷ quoted (chain (symbol "dup" ∷ int (pos 1) ∷ symbol "<" ∷ []))
    ∷ quoted nil
    ∷ quoted (chain (symbol "dup" ∷ int (pos 1) ∷ symbol "-" ∷ []))
    ∷ quoted (symbol "+")
    ∷ symbol "rec"
    ∷ []

run_sum : outcome sum ≡ ok (int (pos 6))
unfolding run_machine inside evaluation evaluate_expr is_builtin_composite spend charge_bytes
    charge_meter size encode_int little_endian int_bytes bit_length push pop evaluate_symbol
    is_operator is_blocked apply_operator guarded find_handler operator_table env_get frames_get
    frame_get push_bound handle_stack_add on_numbers get_expr_tag get_int_from_expr ◌+ℤ◌
run_sum = refl

evaluation_metered_example :
    let vm = start (some (pos 100)) in
    ((evaluation deterministic 12 (chain countdown) vm).1.meter.limit ≡ some (pos 100))
    × (total vm.meter ≤ℤ total (evaluation deterministic 12 (chain countdown) vm).1.meter)
    × (total (evaluation deterministic 12 (chain countdown) vm).1.meter ≤ℤ pos 100)
unfolding total ◌+ℤ◌
evaluation_metered_example =
    evaluation_metered deterministic 12 (chain countdown) (start (some (pos 100))) (pos 100) refl
      (omega arith)

abbrev bind_again : Expr
bind_again = chain (int (pos 7) ∷ quoted (symbol "x") ∷ symbol "def" ∷ [])

binds : (evaluation deterministic 12 bind_again (start (some (pos 100)))).0 ≡ ok tt
unfolding evaluation evaluate_expr is_builtin_composite spend charge_bytes charge_meter size
    encode_int little_endian int_bytes bit_length push pop evaluate_symbol is_operator is_blocked
    apply_operator guarded find_handler operator_table env_get frames_get frame_get push_bound
    handle_stack_def ◌+ℤ◌ total add_charge evaluate_quotation head_of need define get_expr_tag
    define_new
binds = refl

evaluation_write_once_example :
    let vm = start (some (pos 100)) in
    (env_get "x" (evaluation deterministic 12 bind_again vm).1.env ≡ some (int (pos 5)))
    × ((evaluation deterministic 12 bind_again vm).1.env.parents ≡ vm.env.parents)
unfolding frame_get
evaluation_write_once_example =
    evaluation_write_once deterministic 12 bind_again (start (some (pos 100))) "x" (int (pos 5))
      refl (λ h. cc (binds, h))

evaluation-Contained_example :
    Contained (evaluation deterministic 12 (chain (int (pos 7) ∷ symbol "+" ∷ [])) (start none)).0
evaluation-Contained_example =
    evaluation-Contained deterministic 12 (chain (int (pos 7) ∷ symbol "+" ∷ [])) (start none)

rec-Endless_example :
    Endless
      (start (some (pos 100)))
      (evaluation deterministic 50 (symbol "rec") (four (start (some (pos 100)))))
unfolding total ◌+ℤ◌
rec-Endless_example = rec-Endless 50 (start (some (pos 100))) (pos 100, refl, omega arith)

quote-eval_example :
    (do handle_stack_quote; handle_stack_eval (evaluation deterministic 3))
      (record (start none) { stack = int (pos 5) ∷ [] })
    ≡ after_quote_eval (int (pos 5)) (start none)
quote-eval_example = quote-eval deterministic 2 (int (pos 5)) (start none) refl

handle_stack_division_example :
    ((q : ℤ) × (r : ℤ) × (handle_stack_div (with_two (negsuc 6) (pos 2) (start none))
        ≡ (ok tt, with_one q (start none)))
      × (handle_stack_mod (with_two (negsuc 6) (pos 2) (start none))
          ≡ (ok tt, with_one r (start none)))
      × (negsuc 6 ≡ q *ℤ pos 2 +ℤ r)
      × (((pos 0 ≤ℤ r) × (r <ℤ pos 2)) ⊎ ((pos 2 <ℤ r) × (r ≤ℤ pos 0))))
    × (handle_stack_div (with_two (negsuc 6) (pos 0) (start none))
        ≡ (err (op_error "division by zero"), start none))
    × (handle_stack_mod (with_two (negsuc 6) (pos 0) (start none))
        ≡ (err (op_error "modulo by zero"), start none))
handle_stack_division_example =
    handle_stack_division (negsuc 6) (pos 2) (start none) refl (λ e. cc e)

with_result_integers_example :
    let vm = with_two (negsuc 6) (pos 2) (start none) in
    (handle_stack_add_with_result vm ≡ (ok tt, with_ok (negsuc 6 +ℤ pos 2) (start none)))
    × (handle_stack_sub_with_result vm ≡ (ok tt, with_ok (negsuc 6 -ℤ pos 2) (start none)))
    × (handle_stack_mul_with_result vm ≡ (ok tt, with_ok (negsuc 6 *ℤ pos 2) (start none)))
    × ((q : ℤ) × (r : ℤ) × (handle_stack_div_with_result vm ≡ (ok tt, with_ok q (start none)))
        × (handle_stack_mod_with_result vm ≡ (ok tt, with_ok r (start none)))
        × (negsuc 6 ≡ q *ℤ pos 2 +ℤ r)
        × (((pos 0 ≤ℤ r) × (r <ℤ pos 2)) ⊎ ((pos 2 <ℤ r) × (r ≤ℤ pos 0))))
    × (handle_stack_div_with_result (with_two (negsuc 6) (pos 0) (start none))
        ≡ (ok tt, with_err "division by zero" (start none)))
    × (handle_stack_mod_with_result (with_two (negsuc 6) (pos 0) (start none))
        ≡ (ok tt, with_err "modulo by zero" (start none)))
with_result_integers_example = with_result_integers (negsuc 6) (pos 2) (start none) refl (λ e. cc e)

decode-encode_int_example : decode_int (encode_int (negsuc 299)) ≡ negsuc 299
decode-encode_int_example = decode-encode_int (negsuc 299)

handle_stack_and-length_example :
    (r : Bytes) × (handle_stack_and (on (bytes (255 ∷ []) ∷ bytes (255 ∷ []) ∷ []) (start none))
      ≡ (ok tt, on (bytes r ∷ []) (start none)))
    × (from_little_endian r ≡ from_little_endian (255 ∷ []))
    × (length r ≡ max 1 (bit_length (from_little_endian (255 ∷ []))))
handle_stack_and-length_example =
    handle_stack_and-length (255 ∷ []) (start none) (omega arith, tt) refl
