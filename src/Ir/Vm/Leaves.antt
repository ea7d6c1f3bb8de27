-- ===== src/Ir/Vm/Leaves.antt =====
-- The predicates without parts in crates/adabt-ir/src/vm.rs: their code pushes their truth.
use a_da_bt.Prelude.{
  ℕ, suc, ◌+◌, ◌%◌, ◌≡◌, refl, ap, String, false, Option, some, List, [], ◌∷◌, ◌++◌, arith, length,
  length-append, get_elem?, ltb,
}
use a_da_bt.Core.Value.{Value, str}
use a_da_bt.Core.Float.{FloatOps}
use a_da_bt.Core.Record.{Record}
use a_da_bt.Ir.Truth.{Truth, CmpOp, not_truth}
use a_da_bt.Ir.Like.{parse_like_pattern, like_matches}
use a_da_bt.Ir.Expr.{
  Expr, Exprs, compare, negate, in_list, like, value, evaluate, compare_truth, like_truth, in_truth,
  non_null,
}
use a_da_bt.Ir.Vm.Program.{
  Op, Program, u32_mod, push, push_truth, compare_op, not_op, in_op, like_op,
}
use a_da_bt.Ir.Vm.Compile.{intern_pattern, emit_like, count}
use a_da_bt.Ir.Vm.Machine.{returned, step}
use a_da_bt.Ir.Vm.Reach.{at, Moves-op, Moves-seq}
use a_da_bt.Ir.Vm.Emits.{
  Extends, Extends-trans, Extends-push, Emits-push, Emits-trans, intern_pattern-LoadsPattern,
}
use a_da_bt.Ir.Vm.Values.{EmitsValue}
use a_da_bt.Ir.Vm.Items.{
  EmitsValues, values_onto, reverse-take-values, drop-values, length-values_onto,
  search_for-in_truth,
}
use a_da_bt.Ir.Vm.Parts.{EmitsPred}

module _ ⦃fl : FloatOps⦄ where
  pub EmitsPred-truth :
      (e : Expr) (t : Truth) (p : Program)
      → ((rec : Record) → evaluate e rec ≡ t)
      → EmitsPred e p (push (push_truth t) p)
  unfolding step
  EmitsPred-truth e t p same = record {
    code = push_truth t ∷ [];
    emits = Emits-push (push_truth t) p;
    runs = λ f x fits rec vals truths.
        rw same (Moves-op f rec (push_truth t) (length p.ops) vals vals truths (t ∷ truths) refl);
  }

  -- A test on one value.
  pub EmitsPred-test :
      (op : Op) (test : Option Value → Truth) (whole e : Expr) {p q : Program}
      → ((rec : Record) → evaluate whole rec ≡ test (value e rec))
      → ((f : Program) (rec : Record) (v : Option Value) (base : ℕ) (vals : List (Option Value))
            (truths : List Truth)
          → step f rec op (at base (v ∷ vals) truths)
            ≡ returned (at (suc base) vals (test v ∷ truths)))
      → EmitsValue e p q
      → EmitsPred whole p (push op q)
  EmitsPred-test op test whole e {p} {q} same stepped a = record {
    code = a.code ++ op ∷ [];
    emits = Emits-trans a.code (op ∷ []) a.emits (Emits-push op q);
    runs = λ f x fits rec vals truths. rw same (
        Moves-seq f rec a.code (op ∷ []) (length p.ops) (length p.ops + length a.code) refl
          (a.runs f (Extends-push op x) fits rec (length p.ops) vals truths)
          (Moves-op f rec op _ (value e rec ∷ vals) vals truths (test (value e rec) ∷ truths)
            (stepped f rec (value e rec) _ vals truths)));
  }

  pub EmitsPred-compare :
      (op : CmpOp) (l r : Expr) {p q s : Program}
      → EmitsValue l p q
      → EmitsValue r q s
      → EmitsPred (compare op l r) p (push (compare_op op) s)
  unfolding step evaluate
  EmitsPred-compare op l r {p} {q} {s} a b = record {
    code = a.code ++ (b.code ++ compare_op op ∷ []);
    emits =
        Emits-trans a.code _ a.emits (Emits-trans b.code _ b.emits (Emits-push (compare_op op) s));
    runs = λ f x fits rec vals truths.
        let x' = Extends-push (compare_op op) x in
        Moves-seq f rec a.code (b.code ++ compare_op op ∷ []) (length p.ops)
          (length p.ops + length a.code) refl
          (a.runs f (Extends-trans b.emits.extends x') fits rec (length p.ops) vals truths)
          (Moves-seq f rec b.code (compare_op op ∷ []) (length p.ops + length a.code)
            (length p.ops + length a.code + length b.code) refl
            (b.runs f x' fits rec _ (value l rec ∷ vals) truths)
            (Moves-op f rec (compare_op op) _ (value r rec ∷ value l rec ∷ vals) vals truths
              (compare_truth op (value l rec) (value r rec) ∷ truths) refl));
  }

  pub EmitsPred-not :
      (e : Expr) {p q : Program} → EmitsPred e p q → EmitsPred (negate e) p (push not_op q)
  unfolding step evaluate
  EmitsPred-not e {p} {q} a = record {
    code = a.code ++ not_op ∷ [];
    emits = Emits-trans a.code (not_op ∷ []) a.emits (Emits-push not_op q);
    runs = λ f x fits rec vals truths.
        Moves-seq f rec a.code (not_op ∷ []) (length p.ops) (length p.ops + length a.code) refl
          (a.runs f (Extends-push not_op x) fits rec vals truths)
          (Moves-op f rec not_op _ vals vals (evaluate e rec ∷ truths)
            (not_truth (evaluate e rec) ∷ truths) refl);
  }

  step-like :
      (f : Program) (rec : Record) (i base : ℕ) (pattern : String) (v : Option Value)
      (vals : List (Option Value)) (truths : List Truth)
      → get_elem? f.patterns i ≡ some (parse_like_pattern pattern)
      → step f rec (like_op i) (at base (v ∷ vals) truths)
        ≡ returned (at (suc base) vals (like_truth v pattern ∷ truths))
  unfolding step like_truth like_matches
  step-like f rec i base pattern (some (str s)) vals truths e = rw e
  step-like f rec i base pattern v vals truths e = refl

  pub EmitsPred-like :
      (text : Expr) (pattern : String) {p q : Program}
      → EmitsValue text p q
      → EmitsPred (like text pattern) p (emit_like (intern_pattern pattern q))
  unfolding evaluate
  EmitsPred-like text pattern {p} {q} a =
      let r = intern_pattern pattern q in
      let (emits, finds) = intern_pattern-LoadsPattern pattern q in
      record {
        code = a.code ++ like_op r.0 ∷ [];
        emits = Emits-trans a.code (like_op r.0 ∷ []) a.emits emits;
        runs = λ f x fits rec vals truths.
            Moves-seq f rec a.code (like_op r.0 ∷ []) (length p.ops) (length p.ops + length a.code)
              refl (a.runs f (Extends-trans emits.extends x) fits rec (length p.ops) vals truths)
              (Moves-op f rec (like_op r.0) _ (value text rec ∷ vals) vals truths
                (like_truth (value text rec) pattern ∷ truths)
                (step-like f rec r.0 _ pattern (value text rec) vals truths (finds f x fits)));
      }

  step-in :
      (f : Program) (rec : Record) (base : ℕ) (es : Exprs) (v : Option Value)
      (vals : List (Option Value)) (truths : List Truth)
      → step f rec (in_op (count es)) (at base (values_onto es rec (v ∷ vals)) truths)
        ≡ returned (at (suc base) vals (in_truth (non_null v) es rec ∷ truths))
  unfolding step
  step-in f rec base es v vals truths =
      let enough : ltb (length (values_onto es rec (v ∷ vals))) (count es) ≡ false =
        ground (arith, length-values_onto es rec (v ∷ vals)) in
      rw enough (rw (reverse-take-values, drop-values, search_for-in_truth))

  pub EmitsPred-in :
      (needle : Expr) (es : Exprs) {p q s : Program}
      → EmitsValue needle p q
      → EmitsValues es q s
      → EmitsPred (in_list needle es) p (push (in_op (count es % u32_mod)) s)
  unfolding evaluate
  EmitsPred-in needle es {p} {q} {s} a b = record {
    code = a.code ++ (b.code ++ in_op (count es % u32_mod) ∷ []);
    emits =
        Emits-trans a.code _ a.emits
          (Emits-trans b.code _ b.emits (Emits-push (in_op (count es % u32_mod)) s));
    runs = λ f x fits rec vals truths pre post layout at_p.
        let op = in_op (count es % u32_mod) in
        let x' : Extends s f = Extends-push op x in
        let small : count es % u32_mod ≡ count es = omega (
          arith,
          ap length layout,
          length-append pre ((a.code ++ (b.code ++ op ∷ [])) ++ post),
          length-append (a.code ++ (b.code ++ op ∷ [])) post,
          length-append a.code (b.code ++ op ∷ []),
          length-append b.code (op ∷ []),
        ) in
        Moves-seq f rec a.code (b.code ++ op ∷ []) (length p.ops) (length p.ops + length a.code)
          refl (a.runs f (Extends-trans b.emits.extends x') fits rec (length p.ops) vals truths)
          (Moves-seq f rec b.code (op ∷ []) (length p.ops + length a.code)
            (length p.ops + length a.code + length b.code) refl
            (b.runs f x' fits rec _ (value needle rec ∷ vals) truths)
            (Moves-op f rec op _ (values_onto es rec (value needle rec ∷ vals)) vals truths
              (in_truth (non_null (value needle rec)) es rec ∷ truths)
              (rw small (step-in f rec _ es (value needle rec) vals truths))))
          pre post layout at_p;
  }
