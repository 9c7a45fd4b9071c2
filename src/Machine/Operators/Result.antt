-- ===== src/Machine/Operators/Result.antt =====
-- The variants `x?` of the operators: the result is wrapped in a link with the tag "ok", an OpError or
-- an IndexError in one with the tag "err". Each file of an operator has a function of this form.
use lib_py.Expression.Expr.{nil, ok_of, err_of}
use lib_py.Machine.Vm.{Vm, op_error, index_error, Result, err, Action, ◌>>=◌, ◌>>◌, push, pop}

-- The `except` clauses.
abbrev pub caught : Result (Unit {0}) × Vm → Result (Unit {0}) × Vm
caught (err (op_error message), vm) = push (err_of message) vm
caught (err index_error, vm) = push (err_of "stack underflow") vm
caught other = other

-- The result is taken from the stack, or it is NIL.
unfoldable pub with_top : Action (Unit {0}) → Action (Unit {0})
with_top handler vm = caught ((do handler; top ← pop; push (ok_of top)) vm)

unfoldable pub with_nil : Action (Unit {0}) → Action (Unit {0})
with_nil handler vm = caught ((do handler; push (ok_of nil)) vm)
