-- ===== src/Ir/Constraints.antt =====
-- crates/adabt-ir/src/expr.rs: `equality_constraints` and `referenced_fields`.
pub mod Sound
pub mod Fields
use text.Mathlib.Text.{◌==◌ as str_eq}
use a_da_bt.Prelude.{String, Bool, true, false, ◌||◌, List, [], ◌∷◌, ◌++◌, if◌then◌else◌}
use a_da_bt.Core.Value.{Value}
use a_da_bt.Core.Names.{contains}
use a_da_bt.Ir.Truth.{CmpOp}
use a_da_bt.Ir.Expr.{
  Expr, Exprs, literal, field, compare, and_all, or_any, negate, is_null_expr, is_not_null,
  arith_expr, in_list, like, nil, cons,
}

-- The constraint that an equality between a field and a literal adds, in either order.
unfoldable pub equality_of : Expr → Expr → List (String × Value)
equality_of (field f) (literal v) = (f, v) ∷ []
equality_of (literal v) (field f) = (f, v) ∷ []
equality_of _ _ = []

unfoldable mutual
  unfolding equality_of

  -- `collect_equalities`, which pushes onto `out`.
  pub collect_equalities : Expr → List (String × Value) → List (String × Value)
  collect_equalities (compare CmpOp.eq lhs rhs) out = out ++ equality_of lhs rhs
  collect_equalities (and_all parts) out = collect_parts parts out
  collect_equalities _ out = out

  pub collect_parts : Exprs → List (String × Value) → List (String × Value)
  collect_parts nil out = out
  collect_parts (cons p parts) out = collect_parts parts (collect_equalities p out)

unfoldable pub equality_constraints : Expr → List (String × Value)
unfolding collect_equalities
equality_constraints e = collect_equalities e []

unfoldable mutual
  unfolding contains

  pub referenced_fields : Expr → List String → List String
  referenced_fields (field f) out = if contains out f then out else out ++ f ∷ []
  referenced_fields (literal v) out = out
  referenced_fields (compare op lhs rhs) out = referenced_fields rhs (referenced_fields lhs out)
  referenced_fields (and_all parts) out = referenced_parts parts out
  referenced_fields (or_any parts) out = referenced_parts parts out
  referenced_fields (negate e) out = referenced_fields e out
  referenced_fields (is_null_expr e) out = referenced_fields e out
  referenced_fields (is_not_null e) out = referenced_fields e out
  referenced_fields (arith_expr op lhs rhs) out = referenced_fields rhs (referenced_fields lhs out)
  referenced_fields (in_list needle items) out =
      referenced_parts items (referenced_fields needle out)
  referenced_fields (like text pattern) out = referenced_fields text out

  pub referenced_parts : Exprs → List String → List String
  referenced_parts nil out = out
  referenced_parts (cons p parts) out = referenced_parts parts (referenced_fields p out)
