-- ===== src/Machine/Evaluator/Quotation.antt =====
-- What `eval` makes of the value of `quote`.
use lib_py.Base.{ℕ, suc, ◌≡◌, refl, ◌∙◌, none, ◌∷◌}
use lib_py.Expression.Expr.{
  Expr, Slot, missing, here, symbol, bytes, int, str, nil, link, head_of, size,
  is_builtin_composite,
}
use lib_py.Machine.Vm.{Vm, crash, ◌>>◌, raise, push, pop, spend}
use lib_py.Machine.Vm.Charges.{charge_unlimited, bind_ok}
use lib_py.Machine.Operators.Expression.{handle_stack_quote, handle_stack_eval}
use lib_py.Machine.Evaluator.Table.{Mode, Handler}
use lib_py.Machine.Evaluator.{evaluate_quotation, quoted_head, evaluate_expr, evaluation}

-- What stands on the stack after `quote` and `eval` of a value: its head, where it has one.
abbrev pub after_head : Slot → Handler
after_head missing = raise crash
after_head (here e) = push e

abbrev pub after_quote_eval : Expr → Handler
after_quote_eval nil = push nil
after_quote_eval v = after_head (head_of v)

abbrev quotation : Expr → Expr
quotation v = link (here (symbol "'")) (here v)

quoted_head_unlimited :
    (s : Slot) (vm : Vm) → vm.meter.limit ≡ none → quoted_head s vm ≡ after_head s vm
quoted_head_unlimited missing vm e = refl
quoted_head_unlimited (here x) vm e = bind_ok (spend (size x)) _ (charge_unlimited (size x) vm e)

evaluate_quotation_unlimited :
    (v : Expr) (vm : Vm)
    → vm.meter.limit ≡ none
    → evaluate_quotation (here v) vm ≡ after_quote_eval v vm
unfolding evaluate_quotation
evaluate_quotation_unlimited nil vm e = bind_ok (spend 1) _ (charge_unlimited 1 vm e)
evaluate_quotation_unlimited (symbol s) vm e = quoted_head_unlimited _ vm e
evaluate_quotation_unlimited (bytes b) vm e = quoted_head_unlimited _ vm e
evaluate_quotation_unlimited (int v) vm e = quoted_head_unlimited _ vm e
evaluate_quotation_unlimited (str s) vm e = quoted_head_unlimited _ vm e
evaluate_quotation_unlimited (link h t) vm e = quoted_head_unlimited _ vm e

-- `quote` makes a pair of the symbol ' and the value, and the evaluation of such a pair pushes the
-- head of the value, not the value. With a value on the stack and no limit on the meter, `quote` and
-- then `eval` leave NIL for NIL, the head of a value that has one, and an AttributeError, which no
-- handler of the machine catches, for each other value, such as a number or a text.
pub quote-eval :
    (mode : Mode) (fuel : ℕ) (v : Expr) (vm : Vm)
    → vm.meter.limit ≡ none
    → (do handle_stack_quote; handle_stack_eval (evaluation mode (suc fuel)))
        (record vm { stack = v ∷ vm.stack })
      ≡ after_quote_eval v vm
unfolding handle_stack_quote handle_stack_eval pop push evaluation evaluate_expr
    is_builtin_composite
quote-eval mode fuel v vm e =
    bind_ok (do spend (size v); push (quotation v)) _
      (bind_ok (spend (size v)) _ (charge_unlimited (size v) vm e))
    ∙ bind_ok (spend (size (quotation v))) _ (charge_unlimited _ vm e)
    ∙ evaluate_quotation_unlimited v vm e
