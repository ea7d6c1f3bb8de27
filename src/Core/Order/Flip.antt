-- ===== src/Core/Order/Flip.antt =====
-- crates/adabt-core/src/value.rs: swapping the operands of a comparison swaps its answer.
use Prim.Native.String.compare as cmp_laws
use Prim.Native.String.{compare as compare_str, then as str_then}
use Prim.Native.Char.{code}
use a_da_bt.Prelude.{
  ℕ, ◌+◌, max, ◌≡◌, refl, sym, ap, ◌∙◌, String, Bool, Option, some, none, List, [], ◌∷◌, compare,
  Ordering, ◌==◌, if◌then◌else◌, arith, Option-cases, inl, inr,
}
use a_da_bt.Prelude.Int.{ℤ, pos_part, neg_part, compare_ℤ}
use a_da_bt.Core.Float.{FloatOps, canon_f64}
use a_da_bt.Core.Value.{
  Value, null, bool, i64, u64, f64, decimal, timestamp, str, bytes, list, map, Items, nil, cons,
  Fields, end, field, rank, exact_units,
}
use a_da_bt.Core.Order.{
  ◌>>=◌, then_with, lift, cmp_exact, compare_bool, compare_bytes, as_num, compare_floats,
  cmp_numeric, cmp_flat, cmp, cmp_items, cmp_fields,
}

abbrev pub flip : Ordering → Ordering
flip Ordering.lt = Ordering.gt
flip Ordering.eq = Ordering.eq
flip Ordering.gt = Ordering.lt

pub compare-flip : (m n : ℕ) → compare n m ≡ flip (compare m n)
compare-flip m n = ground arith

flip-then_with : (a b : Ordering) → flip (then_with a b) ≡ then_with (flip a) (flip b)
flip-then_with Ordering.lt b = refl
flip-then_with Ordering.eq b = refl
flip-then_with Ordering.gt b = refl

flip-then : (a b : Ordering) → flip (str_then a b) ≡ str_then (flip a) (flip b)
flip-then Ordering.lt b = refl
flip-then Ordering.eq b = refl
flip-then Ordering.gt b = refl

pub compare_str-flip : (s t : String) → compare_str t s ≡ flip (compare_str s t)
compare_str-flip String.[] String.[] = refl
compare_str-flip String.[] (String.◌∷◌ d t) =
    cmp_laws.cons-nil d t ∙ sym (ap flip (cmp_laws.nil-cons d t))
compare_str-flip (String.◌∷◌ c s) String.[] =
    cmp_laws.nil-cons c s ∙ sym (ap flip (cmp_laws.cons-nil c s))
compare_str-flip (String.◌∷◌ c s) (String.◌∷◌ d t) =
    cmp_laws.cons-cons d c t s
    ∙ rw (compare-flip (code c) (code d), compare_str-flip s t)
        (sym (flip-then (compare (code c) (code d)) (compare_str s t)))
    ∙ sym (ap flip (cmp_laws.cons-cons c d s t))

compare_bytes-flip : (xs ys : List ℕ) → compare_bytes ys xs ≡ flip (compare_bytes xs ys)
unfolding compare_bytes
compare_bytes-flip [] [] = refl
compare_bytes-flip [] (y ∷ ys) = refl
compare_bytes-flip (x ∷ xs) [] = refl
compare_bytes-flip (x ∷ xs) (y ∷ ys) =
    rw (compare-flip x y, compare_bytes-flip xs ys)
      (sym (flip-then_with (compare x y) (compare_bytes xs ys)))

abbrev flip_option : Option Ordering → Option Ordering
flip_option none = none
flip_option (some o) = some (flip o)

compare_bool-flip : (x y : Bool) → compare_bool y x ≡ flip (compare_bool x y)
compare_bool-flip x y = ground arith

-- The comparison of two exact contents at a common scale.
abbrev compare_lifted : Option ℤ → Option ℤ → Option Ordering
compare_lifted x y = do a ← x; b ← y; some (compare_ℤ a b)

compare_lifted-flip : (x y : Option ℤ) → compare_lifted y x ≡ flip_option (compare_lifted x y)
compare_lifted-flip none none = refl
compare_lifted-flip none (some y) = refl
compare_lifted-flip (some x) none = refl
compare_lifted-flip (some x) (some y) =
    ap some (compare-flip (pos_part x + neg_part y) (pos_part y + neg_part x))

abbrev compare_units : Option (ℤ × ℕ) → Option (ℤ × ℕ) → Option Ordering
compare_units x y = do
  (au, asc) ← x
  (bu, bsc) ← y
  compare_lifted (lift (max asc bsc) au asc) (lift (max asc bsc) bu bsc)

compare_units-flip : (x y : Option (ℤ × ℕ)) → compare_units y x ≡ flip_option (compare_units x y)
compare_units-flip none none = refl
compare_units-flip none (some y) = refl
compare_units-flip (some x) none = refl
compare_units-flip (some (au, asc)) (some (bu, bsc)) =
    let same : max bsc asc ≡ max asc bsc = omega arith in
    rw same (compare_lifted-flip (lift (max asc bsc) au asc) (lift (max asc bsc) bu bsc))

cmp_exact-flip : (a b : Value) → cmp_exact b a ≡ flip_option (cmp_exact a b)
unfolding cmp_exact
cmp_exact-flip a b = compare_units-flip (exact_units a) (exact_units b)

module _ ⦃fl : FloatOps⦄ where
  compare_floats-flip : (x y : Option ℕ) → compare_floats y x ≡ flip (compare_floats x y)
  compare_floats-flip none none = refl
  compare_floats-flip none (some y) = refl
  compare_floats-flip (some x) none = refl
  compare_floats-flip (some x) (some y) = compare-flip (canon_f64 x) (canon_f64 y)

  cmp_numeric-flip : (a b : Value) → cmp_numeric b a ≡ flip (cmp_numeric a b)
  unfolding cmp_numeric
  cmp_numeric-flip a b = elim (Option-cases (cmp_exact a b)) [
    | inl e ↦ rw (cmp_numeric, cmp_exact-flip a b, e) (compare_floats-flip (as_num a) (as_num b))
    | inr (o, e) ↦ rw (cmp_numeric, cmp_exact-flip a b, e)
  ]

  cmp_flat-flip : (a b : Value) → cmp_flat b a ≡ flip (cmp_flat a b)
  unfolding cmp_flat
  cmp_flat-flip null null = refl
  cmp_flat-flip null b = cmp_numeric-flip null b
  cmp_flat-flip (bool x) (bool y) = compare_bool-flip x y
  cmp_flat-flip (bool x) b = cmp_numeric-flip (bool x) b
  cmp_flat-flip (i64 x) null = cmp_numeric-flip (i64 x) null
  cmp_flat-flip (i64 x) b = cmp_numeric-flip (i64 x) b
  cmp_flat-flip (u64 x) null = cmp_numeric-flip (u64 x) null
  cmp_flat-flip (u64 x) b = cmp_numeric-flip (u64 x) b
  cmp_flat-flip (f64 x) null = cmp_numeric-flip (f64 x) null
  cmp_flat-flip (f64 x) b = cmp_numeric-flip (f64 x) b
  cmp_flat-flip (decimal x s) null = cmp_numeric-flip (decimal x s) null
  cmp_flat-flip (decimal x s) b = cmp_numeric-flip (decimal x s) b
  cmp_flat-flip (timestamp x) (timestamp y) = ground arith
  cmp_flat-flip (timestamp x) b = cmp_numeric-flip (timestamp x) b
  cmp_flat-flip (str x) (str y) = compare_str-flip x y
  cmp_flat-flip (str x) b = cmp_numeric-flip (str x) b
  cmp_flat-flip (bytes x) (bytes y) = compare_bytes-flip x y
  cmp_flat-flip (bytes x) b = cmp_numeric-flip (bytes x) b
  cmp_flat-flip (list x) null = cmp_numeric-flip (list x) null
  cmp_flat-flip (list x) b = cmp_numeric-flip (list x) b
  cmp_flat-flip (map x) null = cmp_numeric-flip (map x) null
  cmp_flat-flip (map x) b = cmp_numeric-flip (map x) b

  abbrev by_rank : Value → Value → Ordering
  by_rank a b = if rank a == rank b then cmp_flat a b else compare (rank a) (rank b)

  by_rank-flip : (a b : Value) → by_rank b a ≡ flip (by_rank a b)
  by_rank-flip a b = ground (arith, cmp_flat-flip a b, compare-flip (rank a) (rank b))

  mutual
    unfolding cmp

    -- Swapping the operands of `cmp` swaps less and greater.
    pub cmp-flip : (a b : Value) → cmp b a ≡ flip (cmp a b)
    cmp-flip null null = by_rank-flip null null
    cmp-flip null b = by_rank-flip null b
    cmp-flip (bool x) null = by_rank-flip (bool x) null
    cmp-flip (bool x) b = by_rank-flip (bool x) b
    cmp-flip (i64 x) null = by_rank-flip (i64 x) null
    cmp-flip (i64 x) b = by_rank-flip (i64 x) b
    cmp-flip (u64 x) null = by_rank-flip (u64 x) null
    cmp-flip (u64 x) b = by_rank-flip (u64 x) b
    cmp-flip (f64 x) null = by_rank-flip (f64 x) null
    cmp-flip (f64 x) b = by_rank-flip (f64 x) b
    cmp-flip (decimal x s) null = by_rank-flip (decimal x s) null
    cmp-flip (decimal x s) b = by_rank-flip (decimal x s) b
    cmp-flip (timestamp x) null = by_rank-flip (timestamp x) null
    cmp-flip (timestamp x) b = by_rank-flip (timestamp x) b
    cmp-flip (str x) null = by_rank-flip (str x) null
    cmp-flip (str x) b = by_rank-flip (str x) b
    cmp-flip (bytes x) null = by_rank-flip (bytes x) null
    cmp-flip (bytes x) b = by_rank-flip (bytes x) b
    cmp-flip (list x) (list y) = cmp_items-flip x y
    cmp-flip (list x) b = by_rank-flip (list x) b
    cmp-flip (map x) (map y) = cmp_fields-flip x y
    cmp-flip (map x) b = by_rank-flip (map x) b

    cmp_items-flip : (xs ys : Items) → cmp_items ys xs ≡ flip (cmp_items xs ys)
    cmp_items-flip nil nil = refl
    cmp_items-flip nil (cons y ys) = refl
    cmp_items-flip (cons x xs) nil = refl
    cmp_items-flip (cons x xs) (cons y ys) =
        rw (cmp-flip x y, cmp_items-flip xs ys) (sym (flip-then_with (cmp x y) (cmp_items xs ys)))

    cmp_fields-flip : (xs ys : Fields) → cmp_fields ys xs ≡ flip (cmp_fields xs ys)
    cmp_fields-flip end end = refl
    cmp_fields-flip end (field l w ys) = refl
    cmp_fields-flip (field k v xs) end = refl
    cmp_fields-flip (field k v xs) (field l w ys) =
        rw (compare_str-flip k l, cmp-flip v w, cmp_fields-flip xs ys)
          (sym (
            flip-then_with (compare_str k l) _
            ∙ ap (then_with (flip (compare_str k l)))
                (flip-then_with (cmp v w) (cmp_fields xs ys))))
