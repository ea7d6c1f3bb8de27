-- ===== src/Engine/ExprCodec/Tests.antt =====
-- The theorem on crates/adabt-engine/src/exprcodec.rs at a condition of a partial index.
use a_da_bt.Prelude.{ℕ, suc, ◌≤◌, ◌≡◌, List, some, arith}
use a_da_bt.Prelude.Int.{pos}
use a_da_bt.Core.Value.{i64}
use a_da_bt.Ir.Truth.{CmpOp}
use a_da_bt.Ir.Expr.{Expr, literal, field, compare, and_all, like, nil, cons}
use a_da_bt.Storage.Utf8.{utf8}
use a_da_bt.Storage.Tlv.Fits.{depth}
use a_da_bt.Engine.ExprCodec.{max_depth, count, encode_expr, decode_expr}
use a_da_bt.Engine.ExprCodec.Parts.{ExprFits}
use a_da_bt.Engine.ExprCodec.RoundTrip.{nesting, decode_expr-encode_expr}

-- age >= 18 and name like "a%"
abbrev condition : Expr
condition = and_all (
    cons (compare CmpOp.ge (field "age") (literal (i64 (pos 18))))
      (cons (like (field "name") "a%") nil))

condition_fits : ExprFits condition
unfolding count utf8 depth
condition_fits =
    (omega arith, ((omega arith, (omega arith, omega arith)), ((omega arith, omega arith), tt)))

condition_shallow : nesting condition ≤ suc max_depth
unfolding nesting
condition_shallow = omega arith

decode_expr-encode_expr_example :
    (out : List ℕ) × (encode_expr condition ≡ some out) × (decode_expr out ≡ some condition)
decode_expr-encode_expr_example = decode_expr-encode_expr condition condition_fits condition_shallow
