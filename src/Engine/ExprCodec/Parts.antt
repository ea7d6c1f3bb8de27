-- ===== src/Engine/ExprCodec/Parts.antt =====
-- crates/adabt-engine/src/exprcodec.rs: each construct of a predicate is read back from its part of
-- the stored form.
use a_da_bt.Prelude.{
  ℕ, suc, ◌^◌, ◌≤◌, ◌<◌, ◌≡◌, refl, ap, ◌∙◌, String, false, List, [], ◌∷◌, ◌++◌, Option, some, none,
  length, length-append, ltb, arith,
}
use mathlib.Core.List.{append_assoc}
use a_da_bt.Core.Value.{Value}
use a_da_bt.Core.Arith.{ArithOp}
use a_da_bt.Core.Order.{◌>>=◌}
use a_da_bt.Ir.Truth.{CmpOp}
use a_da_bt.Ir.Expr.{
  Expr, literal, field, compare, and_all, or_any, negate, is_null_expr, is_not_null, arith_expr,
  in_list, like, Exprs, nil, cons,
}
use a_da_bt.Storage.Varint.{write_u64}
use a_da_bt.Storage.Utf8.{utf8}
use a_da_bt.Storage.Reader.{put_str, read_byte, read_varint, read_string}
use a_da_bt.Storage.Reader.Laws.{bind_is, read_varint-write_u64, read_string-put_str}
use a_da_bt.Storage.Tlv.{encode_value, decode_value}
use a_da_bt.Storage.Tlv.Fits.{ValueFits, depth}
use a_da_bt.Storage.Tlv.RoundTrip.{decode_value-write_value}
use a_da_bt.Storage.Tlv.Append.{encode_value-append}
use a_da_bt.Engine.ExprCodec.{
  cmp_bits, cmp_from, arith_bits, arith_from, count, get_all, get_counted, get_two, get_compare,
  get_arith, get_in, get_like, get_tagged, get,
}

abbrev pub TextFits : String → Type 0
TextFits s = length (utf8 s) < 2 ^ 64

-- What the types of the code hold, with each literal nested in at most 64 containers.
abbrev mutual
  pub ExprFits : Expr → Type 0
  ExprFits (literal v) = ValueFits v × (depth v ≤ 65)
  ExprFits (field name) = TextFits name
  ExprFits (compare op lhs rhs) = ExprFits lhs × ExprFits rhs
  ExprFits (and_all parts) = (count parts < 2 ^ 64) × ExprsFit parts
  ExprFits (or_any parts) = (count parts < 2 ^ 64) × ExprsFit parts
  ExprFits (negate inner) = ExprFits inner
  ExprFits (is_null_expr inner) = ExprFits inner
  ExprFits (is_not_null inner) = ExprFits inner
  ExprFits (arith_expr op lhs rhs) = ExprFits lhs × ExprFits rhs
  ExprFits (in_list needle items) = ExprFits needle × (count items < 2 ^ 64) × ExprsFit items
  ExprFits (like text pattern) = ExprFits text × TextFits pattern

  pub ExprsFit : Exprs → Type 0
  ExprsFit nil = Unit {0}
  ExprsFit (cons e es) = ExprFits e × ExprsFit es

pub bind_some {ℓ κ} :
    {A : Type ℓ} {B : Type κ} (o : Option A) (f : A → Option B) (b : B)
    → (o >>= f) ≡ some b
    → (a : A) × (o ≡ some a) × (f a ≡ some b)
bind_some none f b h = absurd (cc h)
bind_some (some a) f b h = (a, refl, h)

-- The bytes are read as the expression, whatever follows them.
pub record Reads (e : Expr) (levels : ℕ) (out : List ℕ) : Type 0 where
  pub some_byte : 1 ≤ length out
  pub reads_back : (rest : List ℕ) → get levels (out ++ rest) ≡ some (e, rest)

pub record ReadsAll (es : Exprs) (levels : ℕ) (out : List ℕ) : Type 0 where
  pub enough_bytes : count es ≤ length out
  pub read_all_back :
      (rest : List ℕ) → get_all (get levels) (count es) (out ++ rest) ≡ some (es, rest)

cmp_from-cmp_bits : (op : CmpOp) → cmp_from (cmp_bits op) ≡ some op
unfolding cmp_from cmp_bits
cmp_from-cmp_bits CmpOp.eq = refl
cmp_from-cmp_bits CmpOp.ne = refl
cmp_from-cmp_bits CmpOp.lt = refl
cmp_from-cmp_bits CmpOp.le = refl
cmp_from-cmp_bits CmpOp.gt = refl
cmp_from-cmp_bits CmpOp.ge = refl

arith_from-arith_bits : (op : ArithOp) → arith_from (arith_bits op) ≡ some op
unfolding arith_from arith_bits
arith_from-arith_bits ArithOp.add = refl
arith_from-arith_bits ArithOp.sub = refl
arith_from-arith_bits ArithOp.mul = refl
arith_from-arith_bits ArithOp.div = refl

module _ (levels : ℕ) where
  get_two_lem :
      (lhs rhs : Expr) (a b rest : List ℕ)
      → Reads lhs levels a
      → Reads rhs levels b
      → get_two (get levels) ((a ++ b) ++ rest) ≡ some (lhs, rhs, rest)
  unfolding get_two
  get_two_lem lhs rhs a b rest l r =
      ap (get_two (get levels)) (append_assoc a b rest)
      ∙ bind_is (get levels (a ++ (b ++ rest))) _ (lhs, b ++ rest) _ (l.reads_back (b ++ rest))
          (bind_is (get levels (b ++ rest)) _ (rhs, rest) _ (r.reads_back rest) refl)

  get_counted_lem :
      (es : Exprs) (out rest : List ℕ)
      → count es < 2 ^ 64
      → ReadsAll es levels out
      → get_counted (get levels) (write_u64 (count es) ++ (out ++ rest)) ≡ some (es, rest)
  unfolding get_counted
  get_counted_lem es out rest small r =
      let long = r.enough_bytes in
      let room : ltb (length (out ++ rest)) (count es) ≡ false =
        ground (arith, length-append out rest) in
      bind_is (read_varint (write_u64 (count es) ++ (out ++ rest))) _ (count es, out ++ rest) _
        (read_varint-write_u64 (count es) (out ++ rest) small) (rw room (r.read_all_back rest))

  pub literal-Reads :
      (v : Value) → ExprFits (literal v) → Reads (literal v) (suc levels) (1 ∷ encode_value v)
  unfolding get get_tagged read_byte
  literal-Reads v fits = record {
    some_byte = omega arith;
    reads_back = λ rest.
        bind_is (decode_value (encode_value v ++ rest)) _ (v, rest) _
          (ap decode_value (encode_value-append v rest)
            ∙ decode_value-write_value v rest fits.0 fits.1)
          refl;
  }

  pub field-Reads :
      (name : String) → TextFits name → Reads (field name) (suc levels) (2 ∷ put_str name)
  unfolding get get_tagged read_byte
  field-Reads name fits = record {
    some_byte = omega arith;
    reads_back = λ rest.
        bind_is (read_string (put_str name ++ rest)) _ (name, rest) _
          (read_string-put_str name rest fits) refl;
  }

  pub compare-Reads :
      (op : CmpOp) (lhs rhs : Expr) (a b : List ℕ)
      → Reads lhs levels a
      → Reads rhs levels b
      → Reads (compare op lhs rhs) (suc levels) (3 ∷ cmp_bits op ∷ (a ++ b))
  unfolding get get_tagged read_byte get_compare
  compare-Reads op lhs rhs a b l r = record {
    some_byte = omega arith;
    reads_back = λ rest. bind_is (cmp_from (cmp_bits op)) _ op _ (cmp_from-cmp_bits op) (
        bind_is (get_two (get levels) ((a ++ b) ++ rest)) _ (lhs, rhs, rest) _
          (get_two_lem lhs rhs a b rest l r) refl);
  }

  pub arith_expr-Reads :
      (op : ArithOp) (lhs rhs : Expr) (a b : List ℕ)
      → Reads lhs levels a
      → Reads rhs levels b
      → Reads (arith_expr op lhs rhs) (suc levels) (9 ∷ arith_bits op ∷ (a ++ b))
  unfolding get get_tagged read_byte get_arith
  arith_expr-Reads op lhs rhs a b l r = record {
    some_byte = omega arith;
    reads_back = λ rest. bind_is (arith_from (arith_bits op)) _ op _ (arith_from-arith_bits op) (
        bind_is (get_two (get levels) ((a ++ b) ++ rest)) _ (lhs, rhs, rest) _
          (get_two_lem lhs rhs a b rest l r) refl);
  }

  counted_front :
      (es : Exprs) (out rest : List ℕ)
      → count es < 2 ^ 64
      → ReadsAll es levels out
      → get_counted (get levels) ((write_u64 (count es) ++ out) ++ rest) ≡ some (es, rest)
  counted_front es out rest small r =
      ap (get_counted (get levels)) (append_assoc (write_u64 (count es)) out rest)
      ∙ get_counted_lem es out rest small r

  pub and_all-Reads :
      (es : Exprs) (out : List ℕ)
      → count es < 2 ^ 64
      → ReadsAll es levels out
      → Reads (and_all es) (suc levels) (4 ∷ (write_u64 (count es) ++ out))
  unfolding get get_tagged read_byte
  and_all-Reads es out small r = record {
    some_byte = omega arith;
    reads_back = λ rest.
        bind_is (get_counted (get levels) ((write_u64 (count es) ++ out) ++ rest)) _ (es, rest) _
          (counted_front es out rest small r) refl;
  }

  pub or_any-Reads :
      (es : Exprs) (out : List ℕ)
      → count es < 2 ^ 64
      → ReadsAll es levels out
      → Reads (or_any es) (suc levels) (5 ∷ (write_u64 (count es) ++ out))
  unfolding get get_tagged read_byte
  or_any-Reads es out small r = record {
    some_byte = omega arith;
    reads_back = λ rest.
        bind_is (get_counted (get levels) ((write_u64 (count es) ++ out) ++ rest)) _ (es, rest) _
          (counted_front es out rest small r) refl;
  }

  pub negate-Reads :
      (e : Expr) (a : List ℕ) → Reads e levels a → Reads (negate e) (suc levels) (6 ∷ a)
  unfolding get get_tagged read_byte
  negate-Reads e a r = record {
    some_byte = omega arith;
    reads_back = λ rest. bind_is (get levels (a ++ rest)) _ (e, rest) _ (r.reads_back rest) refl;
  }

  pub is_null_expr-Reads :
      (e : Expr) (a : List ℕ) → Reads e levels a → Reads (is_null_expr e) (suc levels) (7 ∷ a)
  unfolding get get_tagged read_byte
  is_null_expr-Reads e a r = record {
    some_byte = omega arith;
    reads_back = λ rest. bind_is (get levels (a ++ rest)) _ (e, rest) _ (r.reads_back rest) refl;
  }

  pub is_not_null-Reads :
      (e : Expr) (a : List ℕ) → Reads e levels a → Reads (is_not_null e) (suc levels) (8 ∷ a)
  unfolding get get_tagged read_byte
  is_not_null-Reads e a r = record {
    some_byte = omega arith;
    reads_back = λ rest. bind_is (get levels (a ++ rest)) _ (e, rest) _ (r.reads_back rest) refl;
  }

  pub in_list-Reads :
      (e : Expr) (es : Exprs) (a b : List ℕ)
      → Reads e levels a
      → count es < 2 ^ 64
      → ReadsAll es levels b
      → Reads (in_list e es) (suc levels) (10 ∷ (a ++ (write_u64 (count es) ++ b)))
  unfolding get get_tagged read_byte get_in
  in_list-Reads e es a b l small r = record {
    some_byte = omega arith;
    reads_back = λ rest.
        bind_is (get levels ((a ++ (write_u64 (count es) ++ b)) ++ rest)) _
          (e, (write_u64 (count es) ++ b) ++ rest) _
          (ap (get levels) (append_assoc a (write_u64 (count es) ++ b) rest)
            ∙ l.reads_back ((write_u64 (count es) ++ b) ++ rest))
          (bind_is (get_counted (get levels) ((write_u64 (count es) ++ b) ++ rest)) _ (es, rest) _
            (counted_front es b rest small r) refl);
  }

  pub like-Reads :
      (e : Expr) (pattern : String) (a : List ℕ)
      → Reads e levels a
      → TextFits pattern
      → Reads (like e pattern) (suc levels) (11 ∷ (a ++ put_str pattern))
  unfolding get get_tagged read_byte get_like
  like-Reads e pattern a l fits = record {
    some_byte = omega arith;
    reads_back = λ rest.
        bind_is (get levels ((a ++ put_str pattern) ++ rest)) _ (e, put_str pattern ++ rest) _
          (ap (get levels) (append_assoc a (put_str pattern) rest)
            ∙ l.reads_back (put_str pattern ++ rest))
          (bind_is (read_string (put_str pattern ++ rest)) _ (pattern, rest) _
            (read_string-put_str pattern rest fits) refl);
  }

  pub nil-ReadsAll : ReadsAll nil levels []
  unfolding get_all count
  nil-ReadsAll = record { enough_bytes = omega arith; read_all_back = λ rest. refl }

  pub cons-ReadsAll :
      (e : Expr) (es : Exprs) (a b : List ℕ)
      → Reads e levels a
      → ReadsAll es levels b
      → ReadsAll (cons e es) levels (a ++ b)
  unfolding get_all count
  cons-ReadsAll e es a b l r = record {
    enough_bytes = omega (arith, length-append a b, l.some_byte, r.enough_bytes);
    read_all_back = λ rest.
        ap (get_all (get levels) (suc (count es))) (append_assoc a b rest)
        ∙ bind_is (get levels (a ++ (b ++ rest))) _ (e, b ++ rest) _ (l.reads_back (b ++ rest))
            (bind_is (get_all (get levels) (count es) (b ++ rest)) _ (es, rest) _
              (r.read_all_back rest) refl);
  }
