-- ===== src/Ir/Vm/Compile.antt =====
-- crates/adabt-ir/src/vm.rs: `Program::compile` and the methods that emit code.
use text.Mathlib.Text.{◌==◌ as str_eq}
use a_da_bt.Prelude.{
  ℕ, suc, ◌+◌, ◌-◌, ◌%◌, String, Bool, true, false, ◌&&◌, Option, some, none, List, [], ◌∷◌, ◌++◌,
  length, get_elem?, set, ltb, ◌==◌, if◌then◌else◌,
}
use a_da_bt.Core.Value.{null, bool}
use a_da_bt.Core.Order.{◌>>=◌}
use a_da_bt.Ir.Truth.{Truth, of_bool}
use a_da_bt.Ir.Like.{Piece, any_run, any_one, parse_like_pattern}
use a_da_bt.Ir.Expr.{
  Expr, Exprs, literal, field, compare, and_all, or_any, negate, is_null_expr, is_not_null,
  arith_expr, in_list, like, nil, cons,
}
use a_da_bt.Ir.Vm.Program.{
  Op, push_val, push_missing, load_field, push_truth, arith_op, compare_op, to_truth, not_op,
  is_null_op, is_not_null_op, in_op, like_op, fold_and, fold_or, jump_if_false, jump_if_true,
  Program, empty_program, u32_mod, push,
}

-- `iter().position(|x| x == …)`, counting from `i`.
unfoldable pub position {ℓ} : {A : Type ℓ} → (A → Bool) → List A → ℕ → Option ℕ
position test [] i = none
position test (x ∷ xs) i = let later = position test xs (suc i) in if test x then some i else later

unfoldable pub intern_field : String → Program → ℕ × Program
unfolding position
intern_field name p = elim (position (λ f. str_eq f name) p.fields 0) [
  | some i ↦ (i % u32_mod, p)
  | none ↦ (length p.fields % u32_mod, record p { fields = p.fields ++ name ∷ [] })
]

abbrev pub piece_eq : Piece → Piece → Bool
piece_eq (Piece.literal c) (Piece.literal d) = c == d
piece_eq any_run any_run = true
piece_eq any_one any_one = true
piece_eq _ _ = false

abbrev pub pieces_eq : List Piece → List Piece → Bool
pieces_eq [] [] = true
pieces_eq (x ∷ xs) (y ∷ ys) = piece_eq x y && pieces_eq xs ys
pieces_eq _ _ = false

unfoldable pub intern_pattern : String → Program → ℕ × Program
unfolding position
intern_pattern pattern p =
    let parsed = parse_like_pattern pattern in
    elim (position (λ q. pieces_eq q parsed) p.patterns 0) [
      | some i ↦ (i % u32_mod, p)
      | none ↦ (length p.patterns % u32_mod, record p { patterns = p.patterns ++ parsed ∷ [] })
    ]

abbrev pub emit_load : ℕ × Program → Program
emit_load (i, p) = push (load_field i) p

abbrev pub emit_like : ℕ × Program → Program
emit_like (i, p) = push (like_op i) p

unfoldable pub emit_value : Expr → Program → Program
unfolding intern_field
emit_value (literal v) p = push (push_val v) p
emit_value (field name) p = emit_load (intern_field name p)
emit_value (arith_expr op lhs rhs) p = push (arith_op op) (emit_value rhs (emit_value lhs p))
emit_value _ p = push push_missing p

-- The loop over the items of `In`.
unfoldable pub emit_values : Exprs → Program → Program
unfolding emit_value
emit_values nil p = p
emit_values (cons item items) p = emit_values items (emit_value item p)

abbrev pub count : Exprs → ℕ
count nil = 0
count (cons e es) = suc (count es)

abbrev pub is_empty : Exprs → Bool
is_empty nil = true
is_empty (cons e es) = false

-- One turn of the patching loop; `none` is the panic of the index or of `unreachable!`.
unfoldable pub patch_one : Option Op → ℕ → ℕ → List Op → Option (List Op)
patch_one (some (jump_if_false t)) at end ops = some (set ops at (jump_if_false end))
patch_one (some (jump_if_true t)) at end ops = some (set ops at (jump_if_true end))
patch_one _ at end ops = none

unfoldable pub patch_all : List ℕ → ℕ → List Op → Option (List Op)
unfolding patch_one
patch_all [] end ops = some ops
patch_all (at ∷ ats) end ops = do
  ops' ← patch_one (get_elem? ops at) at end ops
  patch_all ats end ops'

abbrev pub fold_op : Bool → Op
fold_op true = fold_and
fold_op false = fold_or

abbrev pub jump_op : Bool → ℕ → Op
jump_op true t = jump_if_false t
jump_op false t = jump_if_true t

-- What `And` and `Or` of no parts push.
abbrev pub neutral : Bool → Truth
neutral true = Truth.true
neutral false = Truth.false

-- `emit_fold` around its first loop: `empty` is `parts.is_empty()`, `parts` what the loop leaves.
unfoldable pub emit_fold : Bool → Bool → Program → Option (Program × List ℕ) → Option Program
unfolding patch_all
emit_fold is_and true p parts = some (push (push_truth (neutral is_and)) p)
emit_fold is_and false p parts = do
  (q, patches) ← parts
  ops' ← patch_all patches (length q.ops % u32_mod) q.ops
  some (record q { ops = ops' })

unfoldable mutual
  unfolding emit_value emit_values intern_pattern emit_fold

  -- `none` is a panic of the compiler.
  pub emit_pred : Expr → Program → Option Program
  emit_pred (literal (bool b)) p = some (push (push_truth (of_bool b)) p)
  emit_pred (literal null) p = some (push (push_truth Truth.unknown) p)
  emit_pred (literal v) p = some (push to_truth (emit_value (literal v) p))
  emit_pred (field name) p = some (push to_truth (emit_value (field name) p))
  emit_pred (arith_expr op lhs rhs) p = some (push to_truth (emit_value (arith_expr op lhs rhs) p))
  emit_pred (compare op lhs rhs) p = some (push (compare_op op) (emit_value rhs (emit_value lhs p)))
  emit_pred (negate inner) p = do q ← emit_pred inner p; some (push not_op q)
  emit_pred (is_null_expr inner) p = some (push is_null_op (emit_value inner p))
  emit_pred (is_not_null inner) p = some (push is_not_null_op (emit_value inner p))
  emit_pred (in_list needle items) p =
      some (push (in_op (count items % u32_mod)) (emit_values items (emit_value needle p)))
  emit_pred (like text pattern) p = some (emit_like (intern_pattern pattern (emit_value text p)))
  emit_pred (and_all parts) p =
      emit_fold true (is_empty parts) p (emit_parts parts (count parts) 0 true p [])
  emit_pred (or_any parts) p =
      emit_fold false (is_empty parts) p (emit_parts parts (count parts) 0 false p [])

  -- The first loop of `emit_fold` from part `i` of `n`; a jump gets the target `u32::MAX`.
  pub emit_parts : Exprs → ℕ → ℕ → Bool → Program → List ℕ → Option (Program × List ℕ)
  emit_parts nil n i is_and p patches = some (p, patches)
  emit_parts (cons part parts) n i is_and p patches = do
    q ← emit_pred part p
    let folded = if ltb 0 i then push (fold_op is_and) q else q
    let more = ltb (i + 1) n
    emit_parts parts n (i + 1) is_and
        (if more then push (jump_op is_and (u32_mod - 1)) folded else folded)
        (if more then patches ++ length folded.ops ∷ [] else patches)

unfoldable pub compile : Expr → Option Program
unfolding emit_pred
compile e = emit_pred e empty_program
