-- ===== src/Engine/ExprCodec.antt =====
-- crates/adabt-engine/src/exprcodec.rs: the stored form of a predicate, the condition of a partial
-- index.
pub mod Parts
pub mod RoundTrip
mod Tests
use a_da_bt.Prelude.{
  ℕ, zero, suc, String, Bool, List, [], ◌∷◌, ◌++◌, Option, some, none, length, ltb, ◌==◌,
  if◌then◌else◌,
}
use a_da_bt.Core.Arith.{ArithOp}
use a_da_bt.Core.Order.{◌>>=◌}
use a_da_bt.Ir.Truth.{CmpOp}
use a_da_bt.Ir.Expr.{
  Expr, literal, field, compare, and_all, or_any, negate, is_null_expr, is_not_null, arith_expr,
  in_list, like, Exprs, nil, cons,
}
use a_da_bt.Storage.Varint.{write_u64}
use a_da_bt.Storage.Reader.{put_str, read_byte, read_varint, read_string}
use a_da_bt.Storage.Tlv.{encode_value, decode_value}

abbrev pub max_depth : ℕ
max_depth = 32

unfoldable pub cmp_bits : CmpOp → ℕ
cmp_bits CmpOp.eq = 0
cmp_bits CmpOp.ne = 1
cmp_bits CmpOp.lt = 2
cmp_bits CmpOp.le = 3
cmp_bits CmpOp.gt = 4
cmp_bits CmpOp.ge = 5

unfoldable pub cmp_from : ℕ → Option CmpOp
cmp_from b =
    if b == 0
    then some CmpOp.eq
    else if b == 1
    then some CmpOp.ne
    else if b == 2
    then some CmpOp.lt
    else if b == 3
    then some CmpOp.le
    else if b == 4
    then some CmpOp.gt
    else if b == 5
    then some CmpOp.ge
    else none

unfoldable pub arith_bits : ArithOp → ℕ
arith_bits ArithOp.add = 0
arith_bits ArithOp.sub = 1
arith_bits ArithOp.mul = 2
arith_bits ArithOp.div = 3

unfoldable pub arith_from : ℕ → Option ArithOp
arith_from b =
    if b == 0
    then some ArithOp.add
    else if b == 1
    then some ArithOp.sub
    else if b == 2
    then some ArithOp.mul
    else if b == 3
    then some ArithOp.div
    else none

unfoldable pub count : Exprs → ℕ
count nil = 0
count (cons e es) = suc (count es)

-- `put` with the levels left, `max_depth - depth + 1`, by what it appends. `none` is the refusal of
-- what is nested too deep.
unfoldable mutual
  unfolding cmp_bits arith_bits count

  pub put : Expr → ℕ → Option (List ℕ)
  put e zero = none
  put (literal v) (suc levels) = some (1 ∷ encode_value v)
  put (field name) (suc levels) = some (2 ∷ put_str name)
  put (compare op lhs rhs) (suc levels) = do
    a ← put lhs levels
    b ← put rhs levels
    some (3 ∷ cmp_bits op ∷ (a ++ b))
  put (and_all parts) (suc levels) = do
    a ← put_all parts levels
    some (4 ∷ (write_u64 (count parts) ++ a))
  put (or_any parts) (suc levels) = do
    a ← put_all parts levels
    some (5 ∷ (write_u64 (count parts) ++ a))
  put (negate inner) (suc levels) = do a ← put inner levels; some (6 ∷ a)
  put (is_null_expr inner) (suc levels) = do a ← put inner levels; some (7 ∷ a)
  put (is_not_null inner) (suc levels) = do a ← put inner levels; some (8 ∷ a)
  put (arith_expr op lhs rhs) (suc levels) = do
    a ← put lhs levels
    b ← put rhs levels
    some (9 ∷ arith_bits op ∷ (a ++ b))
  put (in_list needle items) (suc levels) = do
    a ← put needle levels
    b ← put_all items levels
    some (10 ∷ (a ++ (write_u64 (count items) ++ b)))
  put (like text pattern) (suc levels) = do a ← put text levels; some (11 ∷ (a ++ put_str pattern))

  pub put_all : Exprs → ℕ → Option (List ℕ)
  put_all nil levels = some []
  put_all (cons e es) levels = do a ← put e levels; b ← put_all es levels; some (a ++ b)

unfoldable pub encode_expr : Expr → Option (List ℕ)
unfolding put
encode_expr e = put e (suc max_depth)

-- The branches of `get`, given how it reads an expression one level down.
unfoldable pub get_all : (List ℕ → Option (Expr × List ℕ)) → ℕ → List ℕ → Option (Exprs × List ℕ)
get_all get zero xs = some (nil, xs)
get_all get (suc n) xs = do (e, a) ← get xs; (es, rest) ← get_all get n a; some (cons e es, rest)

unfoldable pub get_counted : (List ℕ → Option (Expr × List ℕ)) → List ℕ → Option (Exprs × List ℕ)
get_counted get xs = do (n, a) ← read_varint xs; if ltb (length a) n then none else get_all get n a

unfoldable pub get_two : (List ℕ → Option (Expr × List ℕ)) → List ℕ → Option (Expr × Expr × List ℕ)
get_two get xs = do (lhs, a) ← get xs; (rhs, rest) ← get a; some (lhs, rhs, rest)

unfoldable pub get_compare : (List ℕ → Option (Expr × List ℕ)) → List ℕ → Option (Expr × List ℕ)
unfolding cmp_from
get_compare get xs = do
  (b, a) ← read_byte xs
  op ← cmp_from b
  (lhs, rhs, rest) ← get_two get a
  some (compare op lhs rhs, rest)

unfoldable pub get_arith : (List ℕ → Option (Expr × List ℕ)) → List ℕ → Option (Expr × List ℕ)
unfolding arith_from
get_arith get xs = do
  (b, a) ← read_byte xs
  op ← arith_from b
  (lhs, rhs, rest) ← get_two get a
  some (arith_expr op lhs rhs, rest)

unfoldable pub get_in : (List ℕ → Option (Expr × List ℕ)) → List ℕ → Option (Expr × List ℕ)
get_in get xs = do
  (needle, a) ← get xs
  (items, rest) ← get_counted get a
  some (in_list needle items, rest)

unfoldable pub get_like : (List ℕ → Option (Expr × List ℕ)) → List ℕ → Option (Expr × List ℕ)
get_like get xs = do
  (text, a) ← get xs
  (pattern, rest) ← read_string a
  some (like text pattern, rest)

unfoldable pub get_tagged : (List ℕ → Option (Expr × List ℕ)) → ℕ → List ℕ → Option (Expr × List ℕ)
get_tagged get tag xs =
    if tag == 1
    then (do (v, rest) ← decode_value xs; some (literal v, rest))
    else if tag == 2
    then (do (name, rest) ← read_string xs; some (field name, rest))
    else if tag == 3
    then get_compare get xs
    else if tag == 4
    then (do (parts, rest) ← get_counted get xs; some (and_all parts, rest))
    else if tag == 5
    then (do (parts, rest) ← get_counted get xs; some (or_any parts, rest))
    else if tag == 6
    then (do (inner, rest) ← get xs; some (negate inner, rest))
    else if tag == 7
    then (do (inner, rest) ← get xs; some (is_null_expr inner, rest))
    else if tag == 8
    then (do (inner, rest) ← get xs; some (is_not_null inner, rest))
    else if tag == 9
    then get_arith get xs
    else if tag == 10
    then get_in get xs
    else if tag == 11
    then get_like get xs
    else none

unfoldable pub get : ℕ → List ℕ → Option (Expr × List ℕ)
get zero xs = none
get (suc levels) xs = do (tag, a) ← read_byte xs; get_tagged (get levels) tag a

-- Trailing bytes are refused.
unfoldable pub whole : Option (Expr × List ℕ) → Option Expr
whole none = none
whole (some (e, [])) = some e
whole (some (e, x ∷ xs)) = none

unfoldable pub decode_expr : List ℕ → Option Expr
unfolding whole
decode_expr buf = whole (get (suc max_depth) buf)
