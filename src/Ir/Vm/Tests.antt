-- ===== src/Ir/Vm/Tests.antt =====
-- Concrete runs of crates/adabt-ir/src/vm.rs, and its theorems at concrete inputs.
use a_da_bt.Prelude.{length, ◌≤◌, ◌≡◌, refl, some, none, [], ◌∷◌, arith}
use a_da_bt.Prelude.Int.{pos}
use a_da_bt.Core.Value.{i64, str}
use a_da_bt.Core.Order.{cmp}
use a_da_bt.Core.FloatTests.{no_floats}
use a_da_bt.Core.Record.{Record, get}
use a_da_bt.Ir.Truth.{Truth, CmpOp, apply, and3, or3, not_truth}
use a_da_bt.Ir.Like.{matches_from, parse_like_pattern}
use a_da_bt.Ir.Expr.{
  Expr, literal, field, compare, and_all, or_any, negate, in_list, like, nil, cons, evaluate,
}
use a_da_bt.Ir.Vm.Program.{Program}
use a_da_bt.Ir.Vm.Compile.{compile}
use a_da_bt.Ir.Vm.Machine.{returned, run}
use a_da_bt.Ir.Vm.Agree.{run-compile, compile_total}

abbrev row : Record
row = record { fields = ("a", i64 (pos 5)) ∷ ("s", str "hello") ∷ [] }

-- a = 5 and (missing < 1 or s like 'h%o' or a in (1, missing)) and not s = 'x'
abbrev query : Expr
query = and_all (
    cons (compare CmpOp.eq (field "a") (literal (i64 (pos 5)))) (
      cons
        (or_any (
          cons (compare CmpOp.lt (field "missing") (literal (i64 (pos 1)))) (
            cons (like (field "s") "h%o") (
              cons (in_list (field "a") (cons (literal (i64 (pos 1))) (cons (field "missing") nil)))
                nil))))
        (cons (negate (compare CmpOp.eq (field "s") (literal (str "x")))) nil)))

abbrev program : Program
unfolding compile
program = elim (compile query) [
  | some p ↦ p
  | none ↦ record { ops = []; fields = []; patterns = [] }
]

program_runs : run program row ≡ returned Truth.true
unfolding program run get apply cmp and3 or3 not_truth matches_from parse_like_pattern
program_runs = refl

run-compile_example : run program row ≡ returned (evaluate query row)
unfolding program
run-compile_example = run-compile query program row refl (omega arith)

compile_total_example :
    (p : Program) × (compile query ≡ some p)
    × (length p.fields ≤ length p.ops)
    × (length p.patterns ≤ length p.ops)
compile_total_example = compile_total query
