-- ===== src/Ir/Vm/Parts.antt =====
-- The code of predicates and of the parts of `And` and `Or` in crates/adabt-ir/src/vm.rs.
use a_da_bt.Prelude.{
  ℕ, suc, ◌+◌, ◌≡◌, refl, Bool, Option, some, List, [], ◌∷◌, ◌++◌, length, length-append,
}
use a_da_bt.Core.Value.{Value}
use a_da_bt.Core.Float.{FloatOps}
use a_da_bt.Core.Record.{Record}
use a_da_bt.Ir.Truth.{Truth}
use a_da_bt.Ir.Expr.{Expr, Exprs, nil, cons, evaluate}
use a_da_bt.Ir.Vm.Program.{Op, Program, push}
use a_da_bt.Ir.Vm.Compile.{patch_all, fold_op}
use a_da_bt.Ir.Vm.Reach.{Moves, Moves-op, Moves-nil, Moves-seq}
use a_da_bt.Ir.Vm.Emits.{Extends, Extends-push, Fits, Emits, Emits-push, Emits-refl, Emits-trans}
use a_da_bt.Ir.Vm.Folds.{fold2, fold_truth, placeholder, step-fold}

-- `length (xs ++ y ∷ ys)`, the shape of the code of a part with a jump behind it
pub length-around {ℓ} :
    {A : Type ℓ} (xs : List A) (y : A) (ys : List A)
    → length (xs ++ y ∷ ys) ≡ length xs + suc (length ys)
length-around xs y ys = length-append xs (y ∷ ys)

module _ ⦃fl : FloatOps⦄ where
  -- What emission of `e` in predicate position adds: code that pushes the truth of `e`.
  pub record EmitsPred (e : Expr) (p q : Program) : Type 0 where
    pub code : List Op
    pub emits : Emits p q code
    pub runs :
        (f : Program)
        → Extends q f
        → Fits f
        → (rec : Record) (vals : List (Option Value)) (truths : List Truth)
        → Moves f rec (length p.ops) code vals truths vals (evaluate e rec ∷ truths)

  -- The same of the parts behind the first: code for each jump target, which folds the parts into
  -- the truth on the stack, and the positions of its jumps.
  pub record EmitsParts (is_and : Bool) (es : Exprs) (p q : Program) (ats : List ℕ) : Type 0 where
    pub code : ℕ → List Op
    pub length_code : (s t : ℕ) → length (code s) ≡ length (code t)
    pub emits : Emits p q (code placeholder)
    pub patched :
        (pre : List Op) (t : ℕ)
        → length pre ≡ length p.ops
        → patch_all ats t (pre ++ code placeholder) ≡ some (pre ++ code t)
    pub runs :
        (f : Program)
        → Extends q f
        → Fits f
        → (rec : Record) (a : Truth) (vals : List (Option Value)) (truths : List Truth) (end : ℕ)
        → end ≡ length p.ops + length (code end)
        → Moves f rec
            (length p.ops)
            (code end)
            vals
            (a ∷ truths)
            vals
            (fold_truth is_and a es rec ∷ truths)

  pub EmitsParts-nil : (is_and : Bool) (p : Program) → EmitsParts is_and nil p p []
  unfolding patch_all
  EmitsParts-nil is_and p = record {
    code = λ t. [];
    length_code = λ s t. refl;
    emits = Emits-refl p;
    patched = λ pre t e. refl;
    runs = λ f x fits rec a vals truths end ends. Moves-nil f rec (length p.ops) vals (a ∷ truths);
  }

  -- A part's code and the fold behind it.
  pub part_runs :
      (is_and : Bool) {e : Expr} {p q : Program} (a : EmitsPred e p q) (f : Program)
      → Extends q f
      → Fits f
      → (rec : Record) (acc : Truth) (vals : List (Option Value)) (truths : List Truth)
      → Moves f rec
          (length p.ops)
          (a.code ++ fold_op is_and ∷ [])
          vals
          (acc ∷ truths)
          vals
          (fold2 is_and acc (evaluate e rec) ∷ truths)
  part_runs is_and {e} {p} a f x fits rec acc vals truths =
      Moves-seq f rec a.code (fold_op is_and ∷ []) (length p.ops) (length p.ops + length a.code)
        refl (a.runs f x fits rec vals (acc ∷ truths))
        (Moves-op f rec (fold_op is_and) _ vals vals (evaluate e rec ∷ acc ∷ truths)
          (fold2 is_and acc (evaluate e rec) ∷ truths) (step-fold is_and f rec acc _ _ vals truths))

  -- The last part: its code and the fold.
  pub EmitsParts-last :
      (is_and : Bool) {e : Expr} {p q : Program}
      → EmitsPred e p q
      → EmitsParts is_and (cons e nil) p (push (fold_op is_and) q) []
  unfolding patch_all
  EmitsParts-last is_and {e} {p} {q} a = record {
    code = λ t. a.code ++ fold_op is_and ∷ [];
    length_code = λ s t. refl;
    emits = Emits-trans a.code (fold_op is_and ∷ []) a.emits (Emits-push (fold_op is_and) q);
    patched = λ pre t e. refl;
    runs = λ f x fits rec acc vals truths end ends.
        part_runs is_and a f (Extends-push (fold_op is_and) x) fits rec acc vals truths;
  }
