-- ===== src/Ir/Vm/Correct.antt =====
-- crates/adabt-ir/src/vm.rs against crates/adabt-ir/src/expr.rs: a compiled program agrees with
-- `Expr::evaluate`, and neither the compiler nor the program panics.
use mathlib.Core.List.{append-nil, append_assoc}
use a_da_bt.Prelude.{
  ℕ, suc, ◌+◌, ◌≡◌, refl, sym, ap, ◌∙◌, Bool, true, false, some, List, [], ◌∷◌, ◌++◌, arith, length,
}
use a_da_bt.Core.Value.{null, bool}
use a_da_bt.Core.Float.{FloatOps}
use a_da_bt.Core.Record.{Record}
use a_da_bt.Ir.Truth.{Truth, of_bool}
use a_da_bt.Ir.Expr.{
  Expr, Exprs, literal, field, compare, and_all, or_any, negate, is_null_expr, is_not_null,
  arith_expr, in_list, like, nil, cons, evaluate, truth_of, null_test, not_null_test,
}
use a_da_bt.Ir.Vm.Program.{Program, push, to_truth, is_null_op, is_not_null_op}
use a_da_bt.Ir.Vm.Compile.{emit_value, emit_pred, emit_parts, emit_fold, count, fold_op, jump_op}
use a_da_bt.Ir.Vm.Machine.{step}
use a_da_bt.Ir.Vm.Values.{emit_value-EmitsValue}
use a_da_bt.Ir.Vm.Items.{emit_values-EmitsValues}
use a_da_bt.Ir.Vm.Folds.{fold_truth, fold_truth-and, fold_truth-or, placeholder}
use a_da_bt.Ir.Vm.Parts.{EmitsPred, EmitsParts, EmitsParts-nil, EmitsParts-last}
use a_da_bt.Ir.Vm.Turns.{turn_folds, turn_starts, turn_ends}
use a_da_bt.Ir.Vm.Jumps.{EmitsParts-more, EmitsPred-fold}
use a_da_bt.Ir.Vm.Leaves.{
  EmitsPred-truth, EmitsPred-test, EmitsPred-compare, EmitsPred-not, EmitsPred-like, EmitsPred-in,
}

module _ ⦃fl : FloatOps⦄ where
  -- The compiler returns a program that extends `p` by code for `e`.
  abbrev pub Compiles : Expr → Program → Type 0
  Compiles e p = (q : Program) × (emit_pred e p ≡ some q) × EmitsPred e p q

  -- The loop over the parts behind the first, from part `i` of `n`.
  abbrev CompilesParts : Bool → Exprs → Program → Type 0
  CompilesParts is_and es p =
      (n i : ℕ) (patches : List ℕ)
      → n ≡ suc i + count es
      → (q : Program) × (ats : List ℕ) × (emit_parts es n (suc i) is_and p patches
          ≡ some (q, patches ++ ats))
        × EmitsParts is_and es p q ats

  parts_last :
      (is_and : Bool) (e : Expr) (p : Program) → Compiles e p → CompilesParts is_and (cons e nil) p
  parts_last is_and e p (q, compiled, a) n i patches size = (
    push (fold_op is_and) q,
    [],
    turn_ends e n i is_and p q patches compiled size
        ∙ ap (λ l. some (push (fold_op is_and) q, l)) (sym (append-nil patches)),
    EmitsParts-last is_and a,
  )

  parts_more :
      (is_and : Bool) (e d : Expr) (es : Exprs) (p : Program)
      → Compiles e p
      → ((q : Program) → CompilesParts is_and (cons d es) q)
      → CompilesParts is_and (cons e (cons d es)) p
  parts_more is_and e d es p (q, compiled, a) rest n i patches size =
      let m = push (fold_op is_and) q in
      let (s, ats, more, b) =
        rest (push (jump_op is_and placeholder) m) n (suc i) (patches ++ length m.ops ∷ [])
          (omega arith) in
      (
        s,
        length m.ops ∷ ats,
        turn_folds e (cons d es) n i is_and p q patches compiled (omega arith)
            ∙ more
            ∙ ap (λ l. some (s, l)) (append_assoc patches (length m.ops ∷ []) ats),
        EmitsParts-more is_and a b,
      )

  -- `emit_fold` on one part.
  fold_one :
      (is_and : Bool) (e whole : Expr) (p : Program)
      → ((rec : Record) → evaluate whole rec ≡ evaluate e rec)
      → Compiles e p
      → (q : Program) × (emit_fold is_and false p (emit_parts (cons e nil) 1 0 is_and p [])
          ≡ some q)
        × EmitsPred whole p q
  unfolding emit_fold emit_parts
  fold_one is_and e whole p same (q, compiled, a) = (
    q,
    rw compiled,
    record {
      code = a.code;
      emits = a.emits;
      runs = λ f x fits rec vals truths. rw same (a.runs f x fits rec vals truths);
    },
  )

  -- `emit_fold` on more than one.
  fold_more :
      (is_and : Bool) (e d whole : Expr) (es : Exprs) (p : Program)
      → ((rec : Record) → evaluate whole rec ≡ fold_truth is_and (evaluate e rec) (cons d es) rec)
      → Compiles e p
      → ((q : Program) → CompilesParts is_and (cons d es) q)
      → (q : Program) × (emit_fold is_and false p
            (emit_parts (cons e (cons d es)) (count (cons e (cons d es))) 0 is_and p [])
          ≡ some q)
        × EmitsPred whole p q
  fold_more is_and e d whole es p same (q, compiled, a) rest =
      let n = count (cons e (cons d es)) in
      let (s, ats, more, b) =
        rest (push (jump_op is_and placeholder) q) n 0 (length q.ops ∷ []) (omega arith) in
      let (ops, patched, c) = EmitsPred-fold is_and same a b in
      (
        record s { ops = ops },
        rw (turn_starts e (cons d es) n is_and p q compiled (omega arith), more)
            (unfold emit_fold in rw patched),
        c,
      )

  parts_none : (is_and : Bool) (p : Program) → CompilesParts is_and nil p
  unfolding emit_parts
  parts_none is_and p n i patches size =
      (p, [], ap (λ l. some (p, l)) (sym (append-nil patches)), EmitsParts-nil is_and p)

  -- The fold of the first part and the rest is the evaluator's answer.
  and-fold :
      (e d : Expr) (es : Exprs) (rec : Record)
      → evaluate (and_all (cons e (cons d es))) rec
        ≡ fold_truth true (evaluate e rec) (cons d es) rec
  unfolding evaluate
  and-fold e d es rec = ground (arith, fold_truth-and (evaluate e rec) (cons d es) rec)

  or-fold :
      (e d : Expr) (es : Exprs) (rec : Record)
      → evaluate (or_any (cons e (cons d es))) rec
        ≡ fold_truth false (evaluate e rec) (cons d es) rec
  unfolding evaluate
  or-fold e d es rec = ground (arith, fold_truth-or (evaluate e rec) (cons d es) rec)

  and_one : (e : Expr) (rec : Record) → evaluate (and_all (cons e nil)) rec ≡ evaluate e rec
  unfolding evaluate
  and_one e rec = ground arith

  or_one : (e : Expr) (rec : Record) → evaluate (or_any (cons e nil)) rec ≡ evaluate e rec
  unfolding evaluate
  or_one e rec = ground arith

  mutual
    unfolding emit_pred emit_fold evaluate step

    pub compiles : (e : Expr) (p : Program) → Compiles e p
    compiles (literal (bool b)) p = (_, refl, EmitsPred-truth _ (of_bool b) p (λ rec. refl))
    compiles (literal null) p = (_, refl, EmitsPred-truth _ Truth.unknown p (λ rec. refl))
    compiles (literal v) p = (
      _,
      refl,
      EmitsPred-test to_truth truth_of (literal v) (literal v) (λ rec. refl)
          (λ f rec w base vals truths. refl) (emit_value-EmitsValue (literal v) p),
    )
    compiles (field name) p = (
      _,
      refl,
      EmitsPred-test to_truth truth_of (field name) (field name) (λ rec. refl)
          (λ f rec w base vals truths. refl) (emit_value-EmitsValue (field name) p),
    )
    compiles (arith_expr op l r) p = (
      _,
      refl,
      EmitsPred-test to_truth truth_of (arith_expr op l r) (arith_expr op l r) (λ rec. refl)
          (λ f rec w base vals truths. refl) (emit_value-EmitsValue (arith_expr op l r) p),
    )
    compiles (compare op l r) p = (
      _,
      refl,
      EmitsPred-compare op l r (emit_value-EmitsValue l p)
          (emit_value-EmitsValue r (emit_value l p)),
    )
    compiles (negate e) p =
        let (q, compiled, a) = compiles e p in (_, rw compiled, EmitsPred-not e a)
    compiles (is_null_expr e) p = (
      _,
      refl,
      EmitsPred-test is_null_op null_test (is_null_expr e) e (λ rec. refl)
          (λ f rec w base vals truths. refl) (emit_value-EmitsValue e p),
    )
    compiles (is_not_null e) p = (
      _,
      refl,
      EmitsPred-test is_not_null_op not_null_test (is_not_null e) e (λ rec. refl)
          (λ f rec w base vals truths. refl) (emit_value-EmitsValue e p),
    )
    compiles (in_list needle items) p = (
      _,
      refl,
      EmitsPred-in needle items (emit_value-EmitsValue needle p)
          (emit_values-EmitsValues items (emit_value needle p)),
    )
    compiles (like text pattern) p =
        (_, refl, EmitsPred-like text pattern (emit_value-EmitsValue text p))
    compiles (and_all nil) p = (_, refl, EmitsPred-truth _ Truth.true p (λ rec. refl))
    compiles (and_all (cons e nil)) p =
        fold_one true e (and_all (cons e nil)) p (and_one e) (compiles e p)
    compiles (and_all (cons e (cons d es))) p =
        fold_more true e d (and_all (cons e (cons d es))) es p (and-fold e d es) (compiles e p)
          (compiles_parts (cons d es) true)
    compiles (or_any nil) p = (_, refl, EmitsPred-truth _ Truth.false p (λ rec. refl))
    compiles (or_any (cons e nil)) p =
        fold_one false e (or_any (cons e nil)) p (or_one e) (compiles e p)
    compiles (or_any (cons e (cons d es))) p =
        fold_more false e d (or_any (cons e (cons d es))) es p (or-fold e d es) (compiles e p)
          (compiles_parts (cons d es) false)

    compiles_parts : (es : Exprs) (is_and : Bool) (p : Program) → CompilesParts is_and es p
    compiles_parts nil is_and p = parts_none is_and p
    compiles_parts (cons e nil) is_and p = parts_last is_and e p (compiles e p)
    compiles_parts (cons e (cons d es)) is_and p =
        parts_more is_and e d es p (compiles e p) (compiles_parts (cons d es) is_and)
