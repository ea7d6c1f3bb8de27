-- ===== src/Core/Order.antt =====
-- crates/adabt-core/src/value.rs: `cmp_exact`, `as_num` and `Ord for Value`.
pub mod Flip
pub mod Laws
use Prim.Native.String.{compare as compare_str}
use a_da_bt.Prelude.{
  ℕ, ◌-◌, max, Bool, true, false, Option, some, none, List, [], ◌∷◌, compare, Ordering, ◌==◌,
  if◌then◌else◌,
}
use a_da_bt.Prelude.Int.{ℤ, pos, compare_ℤ, checked_pow10, checked_mul}
use a_da_bt.Core.Float.{FloatOps, canon_f64, of_int}
use a_da_bt.Core.Value.{
  Value, null, bool, i64, u64, f64, decimal, timestamp, str, bytes, list, map, Items, nil, cons,
  Fields, end, field, rank, exact_units,
}

infixl 5 ◌>>=◌
abbrev pub ◌>>=◌ {ℓ κ} : {A : Type ℓ} {B : Type κ} → Option A → (A → Option B) → Option B
none >>= f = none
some a >>= f = f a

-- The comparison `a` decides unless it is `eq`, then `b` does.
abbrev pub then_with : Ordering → Ordering → Ordering
then_with Ordering.eq b = b
then_with a b = a

-- `units` at scale `s`, moved to the scale `target`.
unfoldable pub lift : ℕ → ℤ → ℕ → Option ℤ
unfolding checked_pow10 checked_mul
lift target u s = do p ← checked_pow10 (target - s); checked_mul u p

unfoldable pub cmp_exact : Value → Value → Option Ordering
unfolding exact_units lift
cmp_exact a b = do
  (au, asc) ← exact_units a
  (bu, bsc) ← exact_units b
  let target = max asc bsc
  x ← lift target au asc
  y ← lift target bu bsc
  some (compare_ℤ x y)

abbrev pub compare_bool : Bool → Bool → Ordering
compare_bool false true = Ordering.lt
compare_bool true false = Ordering.gt
compare_bool _ _ = Ordering.eq

unfoldable pub compare_bytes : List ℕ → List ℕ → Ordering
compare_bytes [] [] = Ordering.eq
compare_bytes [] (y ∷ ys) = Ordering.lt
compare_bytes (x ∷ xs) [] = Ordering.gt
compare_bytes (x ∷ xs) (y ∷ ys) = then_with (compare x y) (compare_bytes xs ys)

module _ ⦃fl : FloatOps⦄ where
  unfoldable pub as_num : Value → Option ℕ
  as_num (i64 n) = some (of_int n)
  as_num (u64 n) = some (of_int (pos n))
  as_num (f64 v) = some v
  as_num (decimal units scale) = some (fl.div (of_int units) (fl.powi10 scale))
  as_num _ = none

  -- The fallback through floats. Both sides are numeric where it is reached, so the last case,
  -- a failing `unwrap` in the source, is not.
  abbrev pub compare_floats : Option ℕ → Option ℕ → Ordering
  compare_floats (some x) (some y) = compare (canon_f64 x) (canon_f64 y)
  compare_floats _ _ = Ordering.eq

  unfoldable pub cmp_numeric : Value → Value → Ordering
  unfolding cmp_exact as_num
  cmp_numeric x y = elim (cmp_exact x y) [
    | some o ↦ o
    | none ↦ compare_floats (as_num x) (as_num y)
  ]

  -- Two values of one rank that hold no values themselves.
  unfoldable pub cmp_flat : Value → Value → Ordering
  unfolding cmp_numeric compare_bytes
  cmp_flat null null = Ordering.eq
  cmp_flat (bool x) (bool y) = compare_bool x y
  cmp_flat (timestamp x) (timestamp y) = compare_ℤ x y
  cmp_flat (str x) (str y) = compare_str x y
  cmp_flat (bytes x) (bytes y) = compare_bytes x y
  cmp_flat x y = cmp_numeric x y

  unfoldable mutual
    unfolding rank cmp_flat

    pub cmp : Value → Value → Ordering
    cmp (list xs) (list ys) = cmp_items xs ys
    cmp (map xs) (map ys) = cmp_fields xs ys
    cmp a b = if rank a == rank b then cmp_flat a b else compare (rank a) (rank b)

    pub cmp_items : Items → Items → Ordering
    cmp_items nil nil = Ordering.eq
    cmp_items nil (cons y ys) = Ordering.lt
    cmp_items (cons x xs) nil = Ordering.gt
    cmp_items (cons x xs) (cons y ys) = then_with (cmp x y) (cmp_items xs ys)

    pub cmp_fields : Fields → Fields → Ordering
    cmp_fields end end = Ordering.eq
    cmp_fields end (field l w ys) = Ordering.lt
    cmp_fields (field k v xs) end = Ordering.gt
    cmp_fields (field k v xs) (field l w ys) =
        then_with (compare_str k l) (then_with (cmp v w) (cmp_fields xs ys))

  -- `PartialEq for Value`
  unfoldable pub value_eq : Value → Value → Bool
  unfolding cmp
  value_eq a b = elim (cmp a b) [ Ordering.eq ↦ true | _ ↦ false ]
