-- ===== src/Engine/ExprCodec/RoundTrip.antt =====
-- crates/adabt-engine/src/exprcodec.rs: a predicate is read back from its stored form.
use a_da_bt.Prelude.{
  ℕ, zero, suc, ◌≤◌, ◌≡◌, refl, sym, ap, ◌∙◌, subst, List, [], ◌∷◌, ◌++◌, some, max, arith,
}
use mathlib.Core.List.{append-nil}
use a_da_bt.Ir.Expr.{
  Expr, literal, field, compare, and_all, or_any, negate, is_null_expr, is_not_null, arith_expr,
  in_list, like, Exprs, nil, cons,
}
use a_da_bt.Storage.Varint.{write_u64}
use a_da_bt.Storage.Reader.{put_str}
use a_da_bt.Engine.ExprCodec.{
  max_depth, cmp_bits, arith_bits, count, put, put_all, encode_expr, get, whole, decode_expr,
}
use a_da_bt.Engine.ExprCodec.Parts.{
  ExprFits, ExprsFit, bind_some, Reads, ReadsAll, literal-Reads, field-Reads, compare-Reads,
  arith_expr-Reads, and_all-Reads, or_any-Reads, negate-Reads, is_null_expr-Reads,
  is_not_null-Reads, in_list-Reads, like-Reads, nil-ReadsAll, cons-ReadsAll,
}

-- Bytes that an encoder answers are those that it computes.
same_bytes {ℓ} : (P : List ℕ → Type ℓ) (xs out : List ℕ) → P xs → some xs ≡ some out → P out
same_bytes P xs out p h = subst P (cc h) p

mutual
  unfolding put

  put-Reads :
      (e : Expr) (levels : ℕ) (out : List ℕ)
      → ExprFits e
      → put e levels ≡ some out
      → Reads e levels out
  put-Reads e zero out fits h = absurd (cc h)
  put-Reads (literal v) (suc levels) out fits h =
      same_bytes (Reads (literal v) (suc levels)) _ out (literal-Reads levels v fits) h
  put-Reads (field name) (suc levels) out fits h =
      same_bytes (Reads (field name) (suc levels)) _ out (field-Reads levels name fits) h
  put-Reads (compare op lhs rhs) (suc levels) out fits h =
      let (a, ha, h') = bind_some (put lhs levels) _ out h in
      let (b, hb, h'') = bind_some (put rhs levels) _ out h' in
      same_bytes (Reads (compare op lhs rhs) (suc levels)) _ out
        (compare-Reads levels op lhs rhs a b (put-Reads lhs levels a fits.0 ha)
          (put-Reads rhs levels b fits.1 hb))
        h''
  put-Reads (arith_expr op lhs rhs) (suc levels) out fits h =
      let (a, ha, h') = bind_some (put lhs levels) _ out h in
      let (b, hb, h'') = bind_some (put rhs levels) _ out h' in
      same_bytes (Reads (arith_expr op lhs rhs) (suc levels)) _ out
        (arith_expr-Reads levels op lhs rhs a b (put-Reads lhs levels a fits.0 ha)
          (put-Reads rhs levels b fits.1 hb))
        h''
  put-Reads (and_all es) (suc levels) out fits h =
      let (a, ha, h') = bind_some (put_all es levels) _ out h in
      same_bytes (Reads (and_all es) (suc levels)) _ out
        (and_all-Reads levels es a fits.0 (put_all-ReadsAll es levels a fits.1 ha)) h'
  put-Reads (or_any es) (suc levels) out fits h =
      let (a, ha, h') = bind_some (put_all es levels) _ out h in
      same_bytes (Reads (or_any es) (suc levels)) _ out
        (or_any-Reads levels es a fits.0 (put_all-ReadsAll es levels a fits.1 ha)) h'
  put-Reads (negate e) (suc levels) out fits h =
      let (a, ha, h') = bind_some (put e levels) _ out h in
      same_bytes (Reads (negate e) (suc levels)) _ out
        (negate-Reads levels e a (put-Reads e levels a fits ha)) h'
  put-Reads (is_null_expr e) (suc levels) out fits h =
      let (a, ha, h') = bind_some (put e levels) _ out h in
      same_bytes (Reads (is_null_expr e) (suc levels)) _ out
        (is_null_expr-Reads levels e a (put-Reads e levels a fits ha)) h'
  put-Reads (is_not_null e) (suc levels) out fits h =
      let (a, ha, h') = bind_some (put e levels) _ out h in
      same_bytes (Reads (is_not_null e) (suc levels)) _ out
        (is_not_null-Reads levels e a (put-Reads e levels a fits ha)) h'
  put-Reads (in_list e es) (suc levels) out fits h =
      let (a, ha, h') = bind_some (put e levels) _ out h in
      let (b, hb, h'') = bind_some (put_all es levels) _ out h' in
      same_bytes (Reads (in_list e es) (suc levels)) _ out
        (in_list-Reads levels e es a b (put-Reads e levels a fits.0 ha) fits.1
          (put_all-ReadsAll es levels b fits.2 hb))
        h''
  put-Reads (like e pattern) (suc levels) out fits h =
      let (a, ha, h') = bind_some (put e levels) _ out h in
      same_bytes (Reads (like e pattern) (suc levels)) _ out
        (like-Reads levels e pattern a (put-Reads e levels a fits.0 ha) fits.1) h'

  put_all-ReadsAll :
      (es : Exprs) (levels : ℕ) (out : List ℕ)
      → ExprsFit es
      → put_all es levels ≡ some out
      → ReadsAll es levels out
  put_all-ReadsAll nil levels out fits h =
      same_bytes (ReadsAll nil levels) [] out (nil-ReadsAll levels) h
  put_all-ReadsAll (cons e es) levels out fits h =
      let (a, ha, h') = bind_some (put e levels) _ out h in
      let (b, hb, h'') = bind_some (put_all es levels) _ out h' in
      same_bytes (ReadsAll (cons e es) levels) _ out
        (cons-ReadsAll levels e es a b (put-Reads e levels a fits.0 ha)
          (put_all-ReadsAll es levels b fits.1 hb))
        h''

pub decode_expr-put :
    (e : Expr) (out : List ℕ) → ExprFits e → encode_expr e ≡ some out → decode_expr out ≡ some e
unfolding encode_expr decode_expr whole
decode_expr-put e out fits h =
    let r = put-Reads e (suc max_depth) out fits h in
    ap (λ l. whole (get (suc max_depth) l)) (sym (append-nil out)) ∙ ap whole (r.reads_back [])

-- The levels of a predicate.
unfoldable mutual
  pub nesting : Expr → ℕ
  nesting (literal v) = 1
  nesting (field name) = 1
  nesting (compare op lhs rhs) = suc (max (nesting lhs) (nesting rhs))
  nesting (arith_expr op lhs rhs) = suc (max (nesting lhs) (nesting rhs))
  nesting (and_all es) = suc (nesting_all es)
  nesting (or_any es) = suc (nesting_all es)
  nesting (negate e) = suc (nesting e)
  nesting (is_null_expr e) = suc (nesting e)
  nesting (is_not_null e) = suc (nesting e)
  nesting (in_list e es) = suc (max (nesting e) (nesting_all es))
  nesting (like e pattern) = suc (nesting e)

  pub nesting_all : Exprs → ℕ
  nesting_all nil = 0
  nesting_all (cons e es) = max (nesting e) (nesting_all es)

-- What is nested within the levels left is accepted.
mutual
  unfolding put nesting

  put_total :
      (e : Expr) (levels : ℕ) → nesting e ≤ levels → (out : List ℕ) × (put e levels ≡ some out)
  put_total (literal v) zero h = absurd (omega arith)
  put_total (field name) zero h = absurd (omega arith)
  put_total (compare op lhs rhs) zero h = absurd (omega arith)
  put_total (arith_expr op lhs rhs) zero h = absurd (omega arith)
  put_total (and_all es) zero h = absurd (omega arith)
  put_total (or_any es) zero h = absurd (omega arith)
  put_total (negate e) zero h = absurd (omega arith)
  put_total (is_null_expr e) zero h = absurd (omega arith)
  put_total (is_not_null e) zero h = absurd (omega arith)
  put_total (in_list e es) zero h = absurd (omega arith)
  put_total (like e pattern) zero h = absurd (omega arith)
  put_total (literal v) (suc levels) h = (_, refl)
  put_total (field name) (suc levels) h = (_, refl)
  put_total (compare op lhs rhs) (suc levels) h =
      let (a, ha) = put_total lhs levels (omega arith) in
      let (b, hb) = put_total rhs levels (omega arith) in
      (3 ∷ cmp_bits op ∷ (a ++ b), rw (ha, hb) refl)
  put_total (arith_expr op lhs rhs) (suc levels) h =
      let (a, ha) = put_total lhs levels (omega arith) in
      let (b, hb) = put_total rhs levels (omega arith) in
      (9 ∷ arith_bits op ∷ (a ++ b), rw (ha, hb) refl)
  put_total (and_all es) (suc levels) h =
      let (a, ha) = put_all_total es levels (omega arith) in
      (4 ∷ (write_u64 (count es) ++ a), rw ha refl)
  put_total (or_any es) (suc levels) h =
      let (a, ha) = put_all_total es levels (omega arith) in
      (5 ∷ (write_u64 (count es) ++ a), rw ha refl)
  put_total (negate e) (suc levels) h =
      let (a, ha) = put_total e levels (omega arith) in (6 ∷ a, rw ha refl)
  put_total (is_null_expr e) (suc levels) h =
      let (a, ha) = put_total e levels (omega arith) in (7 ∷ a, rw ha refl)
  put_total (is_not_null e) (suc levels) h =
      let (a, ha) = put_total e levels (omega arith) in (8 ∷ a, rw ha refl)
  put_total (in_list e es) (suc levels) h =
      let (a, ha) = put_total e levels (omega arith) in
      let (b, hb) = put_all_total es levels (omega arith) in
      (10 ∷ (a ++ (write_u64 (count es) ++ b)), rw (ha, hb) refl)
  put_total (like e pattern) (suc levels) h =
      let (a, ha) = put_total e levels (omega arith) in (11 ∷ (a ++ put_str pattern), rw ha refl)

  put_all_total :
      (es : Exprs) (levels : ℕ)
      → nesting_all es ≤ levels
      → (out : List ℕ) × (put_all es levels ≡ some out)
  put_all_total nil levels h = ([], refl)
  put_all_total (cons e es) levels h =
      let (a, ha) = put_total e levels (omega arith) in
      let (b, hb) = put_all_total es levels (omega arith) in (a ++ b, rw (ha, hb) refl)

-- Every predicate of at most 33 levels, its texts, counts and literals in the ranges of their types
-- and each literal nested in at most 64 containers, is accepted for storage, and its stored form is
-- read back as that predicate.
pub decode_expr-encode_expr :
    (e : Expr)
    → ExprFits e
    → nesting e ≤ suc max_depth
    → (out : List ℕ) × (encode_expr e ≡ some out) × (decode_expr out ≡ some e)
unfolding encode_expr
decode_expr-encode_expr e fits shallow =
    let (out, h) = put_total e (suc max_depth) shallow in (out, h, decode_expr-put e out fits h)
