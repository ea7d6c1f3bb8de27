-- ===== src/Ir/Vm/Folds.antt =====
-- The code of `emit_fold` in crates/adabt-ir/src/vm.rs: its jumps, and the patching of their targets.
use mathlib.Core.List.{append_assoc}
use a_da_bt.Prelude.{
  ℕ, suc, ◌+◌, ◌-◌, ◌≡◌, refl, sym, ap, ◌∙◌, ◌⊎◌, inl, inr, Bool, true, false, Option, some, List,
  [], ◌∷◌, ◌++◌, arith, length, length-append, get_elem?-append_length, set-append_length,
}
use a_da_bt.Core.Value.{Value}
use a_da_bt.Core.Float.{FloatOps}
use a_da_bt.Core.Record.{Record}
use a_da_bt.Ir.Truth.{Truth, and3, or3}
use a_da_bt.Ir.Expr.{Exprs, nil, cons, evaluate, and_loop, or_loop}
use a_da_bt.Ir.Vm.Program.{Op, jump_if_false, jump_if_true, Program, u32_mod}
use a_da_bt.Ir.Vm.Compile.{patch_all, fold_op, jump_op}
use a_da_bt.Ir.Vm.Machine.{returned, step}
use a_da_bt.Ir.Vm.Reach.{at, one_step, Moves, Moves-op, Moves-seq}

abbrev pub fold2 : Bool → Truth → Truth → Truth
fold2 true a b = and3 a b
fold2 false a b = or3 a b

-- `False` absorbs `And`, `True` absorbs `Or`.
abbrev pub absorbing : Bool → Truth
absorbing true = Truth.false
absorbing false = Truth.true

-- A jump behind a placeholder target is patched in place.
patch_jump :
    (is_and : Bool) (pre post : List Op) (ats : List ℕ) (old t : ℕ)
    → patch_all (length pre ∷ ats) t (pre ++ jump_op is_and old ∷ post)
      ≡ patch_all ats t (pre ++ jump_op is_and t ∷ post)
unfolding patch_all
patch_jump true pre post ats old t =
    rw (get_elem?-append_length pre post (jump_if_false old))
      (ap (patch_all ats t) (set-append_length pre post (jump_if_false old) (jump_if_false t)))
patch_jump false pre post ats old t =
    rw (get_elem?-append_length pre post (jump_if_true old))
      (ap (patch_all ats t) (set-append_length pre post (jump_if_true old) (jump_if_true t)))

abbrev pub placeholder : ℕ
placeholder = u32_mod - 1

-- Patching a jump behind the code `c`, and then the jumps in the rest.
pub jump_patched :
    (is_and : Bool) (pre c : List Op) (rest : ℕ → List Op) (ats : List ℕ) (t n : ℕ)
    → n ≡ length pre + length c
    → ((front : List Op)
        → length front ≡ suc n
        → patch_all ats t (front ++ rest placeholder) ≡ some (front ++ rest t))
    → patch_all (n ∷ ats) t (pre ++ (c ++ jump_op is_and placeholder ∷ rest placeholder))
      ≡ some (pre ++ (c ++ jump_op is_and t ∷ rest t))
jump_patched is_and pre c rest ats t n e h =
    let front = (pre ++ c) ++ jump_op is_and t ∷ [] in
    let at_jump : n ≡ length (pre ++ c) = omega (arith, length-append pre c) in
    let size : length front ≡ suc n =
      omega (arith, length-append (pre ++ c) (jump_op is_and t ∷ [])) in
    ap (patch_all (n ∷ ats) t)
      (sym (append_assoc pre c (jump_op is_and placeholder ∷ rest placeholder)))
    ∙ ap
        (λ (k : ℕ).
          patch_all (k ∷ ats) t ((pre ++ c) ++ jump_op is_and placeholder ∷ rest placeholder))
        at_jump
    ∙ patch_jump is_and (pre ++ c) (rest placeholder) ats placeholder t
    ∙ ap (patch_all ats t)
        (sym (append_assoc (pre ++ c) (jump_op is_and t ∷ []) (rest placeholder)))
    ∙ h front size
    ∙ ap some (
        append_assoc (pre ++ c) (jump_op is_and t ∷ []) (rest t)
        ∙ append_assoc pre c (jump_op is_and t ∷ rest t))

module _ ⦃fl : FloatOps⦄ where
  -- The conjunction or disjunction of `a` and the parts, folded from the left with no jumps.
  abbrev pub fold_truth : Bool → Truth → Exprs → Record → Truth
  fold_truth is_and a nil rec = a
  fold_truth is_and a (cons e es) rec = fold_truth is_and (fold2 is_and a (evaluate e rec)) es rec

  fold_truth-absorbing :
      (is_and : Bool) (es : Exprs) (rec : Record)
      → fold_truth is_and (absorbing is_and) es rec ≡ absorbing is_and
  unfolding and3 or3
  fold_truth-absorbing is_and nil rec = refl
  fold_truth-absorbing true (cons e es) rec = fold_truth-absorbing true es rec
  fold_truth-absorbing false (cons e es) rec = fold_truth-absorbing false es rec

  abbrev pub and_fold : (a : Truth) (es : Exprs) (rec : Record) → Truth
  and_fold Truth.false es rec = Truth.false
  and_fold Truth.true es rec = and_loop es rec false
  and_fold Truth.unknown es rec = and_loop es rec true

  abbrev pub or_fold : (a : Truth) (es : Exprs) (rec : Record) → Truth
  or_fold Truth.true es rec = Truth.true
  or_fold Truth.false es rec = or_loop es rec false
  or_fold Truth.unknown es rec = or_loop es rec true

  -- The evaluator's loops compute the folds.
  pub fold_truth-and :
      (a : Truth) (es : Exprs) (rec : Record) → fold_truth true a es rec ≡ and_fold a es rec
  unfolding and3 evaluate
  fold_truth-and Truth.false es rec = fold_truth-absorbing true es rec
  fold_truth-and Truth.true nil rec = refl
  fold_truth-and Truth.unknown nil rec = refl
  fold_truth-and a (cons e es) rec = ground (arith, fold_truth-and (and3 a (evaluate e rec)) es rec)

  pub fold_truth-or :
      (a : Truth) (es : Exprs) (rec : Record) → fold_truth false a es rec ≡ or_fold a es rec
  unfolding or3 evaluate
  fold_truth-or Truth.true es rec = fold_truth-absorbing false es rec
  fold_truth-or Truth.false nil rec = refl
  fold_truth-or Truth.unknown nil rec = refl
  fold_truth-or a (cons e es) rec = ground (arith, fold_truth-or (or3 a (evaluate e rec)) es rec)

  jump_taken :
      (is_and : Bool) (p : Program) (rec : Record) (t pc : ℕ) (vals : List (Option Value))
      (truths : List Truth)
      → step p rec (jump_op is_and t) (at pc vals (absorbing is_and ∷ truths))
        ≡ returned (at t vals (absorbing is_and ∷ truths))
  unfolding step
  jump_taken true p rec t pc vals truths = refl
  jump_taken false p rec t pc vals truths = refl

  -- A truth absorbs the rest, or the jump behind it falls through.
  jump_cases :
      (is_and : Bool) (a : Truth) (p : Program) (rec : Record)
      → (a ≡ absorbing is_and)
        ⊎ ((t pc : ℕ) (vals : List (Option Value)) (truths : List Truth)
            → step p rec (jump_op is_and t) (at pc vals (a ∷ truths))
              ≡ returned (at (suc pc) vals (a ∷ truths)))
  unfolding step
  jump_cases true Truth.false p rec = inl refl
  jump_cases true Truth.true p rec = inr (λ t pc vals truths. refl)
  jump_cases true Truth.unknown p rec = inr (λ t pc vals truths. refl)
  jump_cases false Truth.true p rec = inl refl
  jump_cases false Truth.false p rec = inr (λ t pc vals truths. refl)
  jump_cases false Truth.unknown p rec = inr (λ t pc vals truths. refl)

  pub step-fold :
      (is_and : Bool) (p : Program) (rec : Record) (a b : Truth) (pc : ℕ)
      (vals : List (Option Value)) (truths : List Truth)
      → step p rec (fold_op is_and) (at pc vals (b ∷ a ∷ truths))
        ≡ returned (at (suc pc) vals (fold2 is_and a b ∷ truths))
  unfolding step
  step-fold true p rec a b pc vals truths = refl
  step-fold false p rec a b pc vals truths = refl

  -- A jump over the code of the remaining parts changes no answer.
  pub jump_over :
      (is_and : Bool) (f : Program) (rec : Record) (es : Exprs) (a : Truth) (mid end : ℕ)
      (rest : List Op) (vals : List (Option Value)) (truths : List Truth)
      → end ≡ mid + suc (length rest)
      → Moves f rec (suc mid) rest vals (a ∷ truths) vals (fold_truth is_and a es rec ∷ truths)
      → Moves f rec mid
          (jump_op is_and end ∷ rest)
          vals
          (a ∷ truths)
          vals
          (fold_truth is_and a es rec ∷ truths)
  jump_over is_and f rec es a mid end rest vals truths ends m = elim (jump_cases is_and a f rec) [
    | inl e ↦ λ pre post layout at_mid.
        let same : fold_truth is_and a es rec ≡ a = rw e (fold_truth-absorbing is_and es rec) in
        rw (same, ← ends)
          (one_step f rec pre (rest ++ post) (jump_op is_and end) (at mid vals (a ∷ truths))
            (at end vals (a ∷ truths)) layout at_mid
            (rw e (jump_taken is_and f rec end mid vals truths)) (omega arith))
    | inr falls ↦
        Moves-seq f rec (jump_op is_and end ∷ []) rest mid (suc mid) (omega arith)
          (Moves-op f rec (jump_op is_and end) mid vals vals (a ∷ truths) (a ∷ truths)
            (falls end mid vals truths))
          m
  ]
