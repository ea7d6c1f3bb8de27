-- ===== src/Ir/Expr.antt =====
-- crates/adabt-ir/src/expr.rs: predicate expressions and the evaluator that walks them.
use a_da_bt.Prelude.{String, Bool, true, false, Option, some, none, if◌then◌else◌}
use a_da_bt.Core.Value.{Value, null, bool, str, is_null}
use a_da_bt.Core.Float.{FloatOps}
use a_da_bt.Core.Order.{cmp, value_eq, ◌>>=◌}
use a_da_bt.Core.Arith.{ArithOp, checked_arith}
use a_da_bt.Core.Record.{Record, get}
use a_da_bt.Ir.Truth.{Truth, CmpOp, apply, not_truth, is_true, of_bool, unknown_or}
use a_da_bt.Ir.Like.{like_matches}

mutual
  pub data Expr : Type 0 where
    literal : Value → Expr
    field : String → Expr
    compare : CmpOp → Expr → Expr → Expr
    and_all : Exprs → Expr
    or_any : Exprs → Expr
    negate : Expr → Expr
    is_null_expr : Expr → Expr
    is_not_null : Expr → Expr
    arith_expr : ArithOp → Expr → Expr → Expr
    in_list : Expr → Exprs → Expr
    like : Expr → String → Expr

  pub data Exprs : Type 0 where
    nil : Exprs
    cons : Expr → Exprs → Exprs

-- A value in predicate position.
unfoldable pub truth_of : Option Value → Truth
truth_of (some (bool true)) = Truth.true
truth_of (some (bool false)) = Truth.false
truth_of _ = Truth.unknown

unfoldable pub null_test : Option Value → Truth
null_test none = Truth.true
null_test (some null) = Truth.true
null_test _ = Truth.false

unfoldable pub not_null_test : Option Value → Truth
not_null_test none = Truth.false
not_null_test (some null) = Truth.false
not_null_test _ = Truth.true

-- `.filter(|v| !v.is_null())`
unfoldable pub non_null : Option Value → Option Value
unfolding is_null
non_null none = none
non_null (some v) = if is_null v then none else some v

module _ ⦃fl : FloatOps⦄ where
  unfoldable pub compare_truth : CmpOp → Option Value → Option Value → Truth
  unfolding is_null
  compare_truth op (some a) (some b) =
      if is_null a
      then Truth.unknown
      else if is_null b
      then Truth.unknown
      else of_bool (apply op (cmp a b))
  compare_truth op _ _ = Truth.unknown

  unfoldable pub like_truth : Option Value → String → Truth
  like_truth (some (str s)) pattern = of_bool (like_matches s pattern)
  like_truth _ pattern = Truth.unknown

  unfoldable pub value : Expr → Record → Option Value
  value (literal v) rec = some v
  value (field name) rec = get rec name
  value (arith_expr op lhs rhs) rec = do a ← value lhs rec; b ← value rhs rec; checked_arith op a b
  value _ rec = none

  -- The loop of `In` over the items left, with the flag `saw_unknown`.
  unfoldable pub in_loop : Value → Exprs → Record → Bool → Truth
  unfolding value non_null value_eq
  in_loop n nil rec saw = unknown_or saw Truth.false
  in_loop n (cons item items) rec saw = elim (non_null (value item rec)) [
    | some v ↦ if value_eq v n then Truth.true else in_loop n items rec saw
    | none ↦ in_loop n items rec true
  ]

  unfoldable pub in_truth : Option Value → Exprs → Record → Truth
  unfolding in_loop
  in_truth none items rec = Truth.unknown
  in_truth (some n) items rec = in_loop n items rec false

  unfoldable mutual
    unfolding value truth_of null_test not_null_test non_null compare_truth like_truth in_truth

    pub evaluate : Expr → Record → Truth
    evaluate (literal (bool b)) rec = of_bool b
    evaluate (literal null) rec = Truth.unknown
    evaluate (literal v) rec = truth_of (value (literal v) rec)
    evaluate (field name) rec = truth_of (value (field name) rec)
    evaluate (compare op lhs rhs) rec = compare_truth op (value lhs rec) (value rhs rec)
    evaluate (and_all parts) rec = and_loop parts rec false
    evaluate (or_any parts) rec = or_loop parts rec false
    evaluate (negate inner) rec = not_truth (evaluate inner rec)
    evaluate (is_null_expr inner) rec = null_test (value inner rec)
    evaluate (is_not_null inner) rec = not_null_test (value inner rec)
    evaluate (arith_expr op lhs rhs) rec = truth_of (value (arith_expr op lhs rhs) rec)
    evaluate (in_list needle items) rec = in_truth (non_null (value needle rec)) items rec
    evaluate (like text pattern) rec = like_truth (value text rec) pattern

    -- The loops of `And` and `Or` over the parts left, with the flag `saw_unknown`.
    pub and_loop : Exprs → Record → Bool → Truth
    and_loop nil rec saw = unknown_or saw Truth.true
    and_loop (cons p parts) rec saw = elim (evaluate p rec) [
      | Truth.false ↦ Truth.false
      | Truth.unknown ↦ and_loop parts rec true
      | Truth.true ↦ and_loop parts rec saw
    ]

    pub or_loop : Exprs → Record → Bool → Truth
    or_loop nil rec saw = unknown_or saw Truth.false
    or_loop (cons p parts) rec saw = elim (evaluate p rec) [
      | Truth.true ↦ Truth.true
      | Truth.unknown ↦ or_loop parts rec true
      | Truth.false ↦ or_loop parts rec saw
    ]

  unfoldable pub matches : Expr → Record → Bool
  unfolding evaluate is_true
  matches e rec = is_true (evaluate e rec)
