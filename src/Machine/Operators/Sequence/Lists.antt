-- ===== src/Machine/Operators/Sequence/Lists.antt =====
-- The operators on lists of links, where the meter has no limit.
use lib_py.Base.{◌≡◌, refl, ap, ◌∙◌, none, some, List, [], ◌∷◌, ◌++◌, length, append-nil}
use lib_py.Base.Int.{pos}
use lib_py.Expression.Expr.{Expr, here, int, get_expr_tag, get_expr_builtin_tag}
use lib_py.Machine.Vm.{Vm, ok, ◌>>◌, push, pop, spend}
use lib_py.Machine.Vm.Charges.{charge_unlimited, bind_ok}
use lib_py.Machine.Operators.Stack.Order.{on}
use lib_py.Machine.Operators.Sequence.{slot_elems, elements, list_of, assemble_cost}
use lib_py.Machine.Operators.Sequence.Plain.{
  reverse_onto, count_cost, handle_stack_count, handle_stack_reverse, handle_stack_concat,
}

tag-list_of : (es : List Expr) → get_expr_tag (list_of es) ≡ "link"
unfolding get_expr_tag
tag-list_of [] = refl
tag-list_of (e ∷ []) = refl
tag-list_of (e ∷ x ∷ es) = refl

-- The elements of a list that was made of elements.
slot_elems-list_of : (es : List Expr) → slot_elems (here (list_of es)) ≡ es
unfolding slot_elems get_expr_builtin_tag
slot_elems-list_of [] = refl
slot_elems-list_of (e ∷ []) = refl
slot_elems-list_of (e ∷ x ∷ es) = ap (λ rest. e ∷ rest) (slot_elems-list_of (x ∷ es))

elements-list_of : (es : List Expr) → elements (list_of es) ≡ some es
unfolding get_expr_tag
elements-list_of [] = ap some (slot_elems-list_of [])
elements-list_of (e ∷ []) = ap some (slot_elems-list_of (e ∷ []))
elements-list_of (e ∷ x ∷ es) = ap some (slot_elems-list_of (e ∷ x ∷ es))

count_top :
    (es : List Expr) (vm : Vm)
    → vm.meter.limit ≡ none
    → handle_stack_count (on (list_of es ∷ vm.stack) vm)
      ≡ (ok tt, on (int (pos (length es)) ∷ vm.stack) vm)
unfolding handle_stack_count pop push
count_top es vm e =
    rw (tag-list_of es, elements-list_of es)
      (bind_ok (spend (count_cost "link" (length es))) _ (charge_unlimited _ vm e))

reverse_top :
    (es : List Expr) (vm : Vm)
    → vm.meter.limit ≡ none
    → handle_stack_reverse (on (list_of es ∷ vm.stack) vm)
      ≡ (ok tt, on (list_of (reverse_onto es []) ∷ vm.stack) vm)
unfolding handle_stack_reverse pop push
reverse_top es vm e =
    rw (tag-list_of es, elements-list_of es)
      (bind_ok (spend (assemble_cost "link" es)) _ (charge_unlimited _ vm e))

concat_top :
    (xs ys : List Expr) (vm : Vm)
    → vm.meter.limit ≡ none
    → handle_stack_concat (on (list_of ys ∷ list_of xs ∷ vm.stack) vm)
      ≡ (ok tt, on (list_of (xs ++ ys) ∷ vm.stack) vm)
unfolding handle_stack_concat pop push
concat_top xs ys vm e =
    rw (tag-list_of xs, tag-list_of ys, elements-list_of xs, elements-list_of ys)
      (bind_ok (spend (assemble_cost "link" (xs ++ ys))) _ (charge_unlimited _ vm e))

reverse_onto_twice :
    (es done rest : List Expr)
    → reverse_onto (reverse_onto es done) rest ≡ reverse_onto done (es ++ rest)
reverse_onto_twice [] done rest = refl
reverse_onto_twice (e ∷ es) done rest = reverse_onto_twice es (e ∷ done) rest

-- The operators on lists are those on their elements: where the meter has no limit, `count` gives
-- the number of the elements of a list, `reverse` twice leaves the list, and `concat` of two lists
-- gives the list of the elements of the lower and then the upper.
pub list_operators :
    (xs ys : List Expr) (vm : Vm)
    → vm.meter.limit ≡ none
    → (handle_stack_count (on (list_of xs ∷ vm.stack) vm)
        ≡ (ok tt, on (int (pos (length xs)) ∷ vm.stack) vm))
      × ((do handle_stack_reverse; handle_stack_reverse) (on (list_of xs ∷ vm.stack) vm)
          ≡ (ok tt, on (list_of xs ∷ vm.stack) vm))
      × (handle_stack_concat (on (list_of ys ∷ list_of xs ∷ vm.stack) vm)
          ≡ (ok tt, on (list_of (xs ++ ys) ∷ vm.stack) vm))
list_operators xs ys vm e = (
  count_top xs vm e,
  bind_ok handle_stack_reverse _ (reverse_top xs vm e)
      ∙ reverse_top (reverse_onto xs []) vm e
      ∙ ap (λ es. (ok tt, on (list_of es ∷ vm.stack) vm))
          (reverse_onto_twice xs [] [] ∙ append-nil xs),
  concat_top xs ys vm e,
)
