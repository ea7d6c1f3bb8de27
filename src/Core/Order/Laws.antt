-- ===== src/Core/Order/Laws.antt =====
-- crates/adabt-core/src/value.rs: what the order on values keeps of a total order, and what it loses.
use a_da_bt.Prelude.{ℕ, ◌^◌, ◌<◌, ◌≡◌, refl, sym, subst, ◌∙◌, ◌↔◌, true, some, Ordering, arith}
use a_da_bt.Prelude.Int.{pos, ◌*ℤ◌, checked_mul, checked_pow10}
use a_da_bt.Core.Float.{FloatOps, of_int}
use a_da_bt.Core.Value.{Value, u64, f64, exact_units}
use a_da_bt.Core.Order.{lift, cmp, value_eq, cmp_exact, cmp_numeric, as_num}
use a_da_bt.Core.Order.Flip.{flip, cmp-flip}

flip-fixed : (o : Ordering) → o ≡ flip o → o ≡ Ordering.eq
flip-fixed Ordering.lt h = cc
flip-fixed Ordering.eq h = refl
flip-fixed Ordering.gt h = cc

lift_u64 : (n : ℕ) → n < 2 ^ 64 → lift 0 (pos n) 0 ≡ some (pos n)
unfolding lift checked_mul checked_pow10 ◌*ℤ◌
lift_u64 n h = ground arith

module _ ⦃fl : FloatOps⦄ where
  -- Every value equals itself, a NaN and a list or a map that holds one too; equality of values is
  -- symmetric; and of two values, the first is less just where the second is greater.
  pub cmp_laws :
      (a b : Value)
      → (value_eq a a ≡ true)
        × (value_eq a b ≡ value_eq b a)
        × ((cmp a b ≡ Ordering.lt) ↔ (cmp b a ≡ Ordering.gt))
  unfolding value_eq
  cmp_laws a b = (
    rw (value_eq, flip-fixed (cmp a a) (cmp-flip a a)),
    ground (arith, cmp-flip a b),
    (λ h. ground (arith, cmp-flip a b), λ h. ground (arith, cmp-flip a b)),
  )

  cmp_u64_f64 : (n x : ℕ) → of_int (pos n) ≡ x → value_eq (u64 n) (f64 x) ≡ true
  unfolding value_eq cmp cmp_numeric exact_units as_num
  cmp_u64_f64 n x h = subst (λ (y : ℕ). value_eq (u64 n) (f64 y) ≡ true) h (ground arith)

  cmp_u64 : (m n : ℕ) → m < 2 ^ 64 → n < 2 ^ 64 → m < n → cmp (u64 m) (u64 n) ≡ Ordering.lt
  unfolding cmp cmp_numeric cmp_exact
  cmp_u64 m n hm hn lt = ground (arith, lift_u64 m hm, lift_u64 n hn)

  -- Equality of values is not transitive: two different integers that round to one float are each
  -- equal to that float, and the smaller is less than the larger.
  pub equality_is_not_transitive :
      (m n : ℕ)
      → m < n
      → n < 2 ^ 64
      → of_int (pos m) ≡ of_int (pos n)
      → (value_eq (u64 m) (f64 (of_int (pos m))) ≡ true)
        × (value_eq (f64 (of_int (pos m))) (u64 n) ≡ true)
        × (cmp (u64 m) (u64 n) ≡ Ordering.lt)
  equality_is_not_transitive m n lt fits same = (
    cmp_u64_f64 m _ refl,
    (cmp_laws (f64 (of_int (pos m))) (u64 n)).1 ∙ cmp_u64_f64 n _ (sym same),
    cmp_u64 m n (omega arith) fits lt,
  )
