-- ===== src/Ir/Vm/Agree.antt =====
-- crates/adabt-ir/src/vm.rs: the promises of `Program::compile` and `Program::run`.
use mathlib.Core.List.{append-nil}
use a_da_bt.Prelude.{suc, ◌≤◌, ◌<◌, ◌≡◌, refl, sym, ap, ◌∙◌, subst, some, [], arith, length}
use a_da_bt.Core.Float.{FloatOps}
use a_da_bt.Core.Record.{Record}
use a_da_bt.Ir.Expr.{Expr, evaluate}
use a_da_bt.Ir.Vm.Program.{Program, empty_program, u32_mod}
use a_da_bt.Ir.Vm.Compile.{compile}
use a_da_bt.Ir.Vm.Machine.{returned, run}
use a_da_bt.Ir.Vm.Reach.{run_loop-Reaches}
use a_da_bt.Ir.Vm.Emits.{Extends-refl, Fits}
use a_da_bt.Ir.Vm.Parts.{EmitsPred}
use a_da_bt.Ir.Vm.Correct.{compiles}

module _ ⦃fl : FloatOps⦄ where
  run-EmitsPred :
      (e : Expr) (p : Program) (rec : Record)
      → EmitsPred e empty_program p
      → length p.ops < u32_mod
      → run p rec ≡ returned (evaluate e rec)
  unfolding run
  run-EmitsPred e p rec a small =
      let fits : Fits p = record {
        ops_fit = small;
        fields_fit = omega (arith, ap length a.emits.ops_eq, a.emits.fields_grow);
        patterns_fit = omega (arith, ap length a.emits.ops_eq, a.emits.patterns_grow);
      } in
      let path =
        a.runs p (Extends-refl p p refl refl) fits rec [] [] [] []
          (a.emits.ops_eq ∙ sym (append-nil a.code)) refl in
      run_loop-Reaches p rec (suc (length p.ops)) path (omega (arith, ap length a.emits.ops_eq))
        (omega arith)

  -- For every predicate and every record: if the predicate's program has fewer than 2^32
  -- instructions, running it on the record ends, without a panic and within its fuel, with the
  -- truth that the evaluator walking the predicate gives.
  pub run-compile :
      (e : Expr) (p : Program) (rec : Record)
      → compile e ≡ some p
      → length p.ops < u32_mod
      → run p rec ≡ returned (evaluate e rec)
  unfolding compile
  run-compile e p rec h small =
      let (q, compiled, a) = compiles e empty_program in
      let same : q ≡ p = cc (compiled, h) in
      run-EmitsPred e p rec (subst (EmitsPred e empty_program) same a) small

  -- The compiler panics on no predicate: it returns a program, whose tables of names and of
  -- patterns are no longer than its instructions.
  pub compile_total :
      (e : Expr)
      → (p : Program) × (compile e ≡ some p)
        × (length p.fields ≤ length p.ops)
        × (length p.patterns ≤ length p.ops)
  unfolding compile
  compile_total e =
      let (q, compiled, a) = compiles e empty_program in
      (
        q,
        compiled,
        omega (arith, ap length a.emits.ops_eq, a.emits.fields_grow),
        omega (arith, ap length a.emits.ops_eq, a.emits.patterns_grow),
      )
