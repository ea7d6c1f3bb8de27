-- ===== src/Ir/Vm/Turns.antt =====
-- The turns of the loop of `emit_fold` in crates/adabt-ir/src/vm.rs, by the place of the part.
use a_da_bt.Prelude.{
  ℕ, suc, ◌+◌, ◌<◌, ◌≡◌, refl, ◌∙◌, Bool, true, false, some, List, [], ◌∷◌, ◌++◌, arith, length,
  ltb, if◌then◌else◌,
}
use a_da_bt.Ir.Expr.{Expr, Exprs, nil, cons}
use a_da_bt.Ir.Vm.Program.{Program, push}
use a_da_bt.Ir.Vm.Compile.{emit_pred, emit_parts, fold_op, jump_op}
use a_da_bt.Ir.Vm.Folds.{placeholder}

parts_nil :
    (n i : ℕ) (is_and : Bool) (p : Program) (patches : List ℕ)
    → emit_parts nil n i is_and p patches ≡ some (p, patches)
unfolding emit_parts
parts_nil n i is_and p patches = refl

-- One turn of the loop, where the part compiles.
turn :
    (e : Expr) (es : Exprs) (n i : ℕ) (is_and : Bool) (p q : Program) (patches : List ℕ)
    → emit_pred e p ≡ some q
    → emit_parts (cons e es) n i is_and p patches
      ≡ emit_parts es n
          (i + 1)
          is_and
          (if ltb (i + 1) n
            then push (jump_op is_and placeholder) (if ltb 0 i then push (fold_op is_and) q else q)
            else (if ltb 0 i then push (fold_op is_and) q else q))
          (if ltb (i + 1) n
            then patches ++ length (if ltb 0 i then push (fold_op is_and) q else q).ops ∷ []
            else patches)
unfolding emit_parts
turn e es n i is_and p q patches compiled = rw compiled

pub turn_folds :
    (e : Expr) (es : Exprs) (n i : ℕ) (is_and : Bool) (p q : Program) (patches : List ℕ)
    → emit_pred e p ≡ some q
    → suc i + 1 < n
    → emit_parts (cons e es) n (suc i) is_and p patches
      ≡ emit_parts es n
          (suc (suc i))
          is_and
          (push (jump_op is_and placeholder) (push (fold_op is_and) q))
          (patches ++ length (push (fold_op is_and) q).ops ∷ [])
turn_folds e es n i is_and p q patches compiled more =
    let behind : ltb 0 (suc i) ≡ true = ground arith in
    let goes_on : ltb (suc i + 1) n ≡ true = ground arith in
    let next_i : suc i + 1 ≡ suc (suc i) = omega arith in
    turn e es n (suc i) is_and p q patches compiled ∙ rw (goes_on, behind, next_i)

pub turn_starts :
    (e : Expr) (es : Exprs) (n : ℕ) (is_and : Bool) (p q : Program)
    → emit_pred e p ≡ some q
    → 1 < n
    → emit_parts (cons e es) n 0 is_and p []
      ≡ emit_parts es n 1 is_and (push (jump_op is_and placeholder) q) (length q.ops ∷ [])
turn_starts e es n is_and p q compiled more =
    let goes_on : ltb 1 n ≡ true = ground arith in turn e es n 0 is_and p q [] compiled ∙ rw goes_on

pub turn_ends :
    (e : Expr) (n i : ℕ) (is_and : Bool) (p q : Program) (patches : List ℕ)
    → emit_pred e p ≡ some q
    → n ≡ suc i + 1
    → emit_parts (cons e nil) n (suc i) is_and p patches ≡ some (push (fold_op is_and) q, patches)
turn_ends e n i is_and p q patches compiled last =
    let behind : ltb 0 (suc i) ≡ true = ground arith in
    let stops : ltb (suc i + 1) n ≡ false = ground arith in
    turn e nil n (suc i) is_and p q patches compiled
    ∙ rw (stops, behind) (parts_nil n _ is_and _ patches)
