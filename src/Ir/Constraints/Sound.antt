-- ===== src/Ir/Constraints/Sound.antt =====
-- What `equality_constraints` of crates/adabt-ir/src/expr.rs lets an index lookup rely on.
use a_da_bt.Prelude.{
  ◌≡◌, refl, ◌≢◌, sym, subst, ◌∙◌, if◌then◌else◌, String, Bool, true, false, Option, some, none,
  List, [], ◌∷◌, ◌++◌, All, Ordering,
}
use a_da_bt.Core.Value.{Value, is_null}
use a_da_bt.Core.Float.{FloatOps}
use a_da_bt.Core.Order.{cmp, value_eq}
use a_da_bt.Core.Order.Laws.{cmp_laws}
use a_da_bt.Core.Record.{Record, get}
use a_da_bt.Ir.Truth.{Truth, CmpOp, apply, of_bool, is_true}
use a_da_bt.Ir.Expr.{
  Expr, Exprs, literal, field, compare, and_all, nil, cons, value, matches, evaluate, and_loop,
  compare_truth,
}
use a_da_bt.Ir.Constraints.{equality_of, collect_equalities, collect_parts, equality_constraints}

module _ ⦃fl : FloatOps⦄ where
  -- The record holds a value in the field, and it equals the constraint's value.
  abbrev pub Meets : Record → String × Value → Type 0
  Meets rec (f, v) = (w : Value) × (get rec f ≡ some w) × (value_eq w v ≡ true)

  All-append {ℓ} :
      {A : Type 0} (P : A → Type ℓ) (xs ys : List A) → All P xs → All P ys → All P (xs ++ ys)
  All-append P [] ys hx hy = hy
  All-append P (x ∷ xs) ys hx hy = (hx.0, All-append P xs ys hx.1 hy)

  guarded_eq :
      (n m : Bool) (o : Ordering)
      → (if n then Truth.unknown else if m then Truth.unknown else of_bool (apply CmpOp.eq o))
        ≡ Truth.true
      → o ≡ Ordering.eq
  unfolding apply
  guarded_eq true m o h = absurd (cc)
  guarded_eq false true o h = absurd (cc)
  guarded_eq false false Ordering.lt h = absurd (cc)
  guarded_eq false false Ordering.eq h = refl
  guarded_eq false false Ordering.gt h = absurd (cc)

  value_eq_of_cmp : (x y : Value) → cmp x y ≡ Ordering.eq → value_eq x y ≡ true
  unfolding value_eq
  value_eq_of_cmp x y h = rw (value_eq, h)

  some-injective : {x y : Value} → some x ≡ some y → x ≡ y
  some-injective h = cc

  -- What a comparison that came out true says of its two sides.
  compared_equal :
      (a b : Option Value)
      → compare_truth CmpOp.eq a b ≡ Truth.true
      → (x : Value) × (y : Value) × (a ≡ some x) × (b ≡ some y) × (value_eq x y ≡ true)
  unfolding compare_truth
  compared_equal none b h = absurd (cc)
  compared_equal (some x) none h = absurd (cc)
  compared_equal (some x) (some y) h =
      (x, y, refl, refl, value_eq_of_cmp x y (guarded_eq (is_null x) (is_null y) (cmp x y) h))

  equality_of-Meets :
      (l r : Expr) (rec : Record)
      → compare_truth CmpOp.eq (value l rec) (value r rec) ≡ Truth.true
      → All (Meets rec) (equality_of l r)
  unfolding equality_of value
  equality_of-Meets (field f) (literal v) rec h =
      let (x, y, got, e, same) = compared_equal (get rec f) (some v) h in
      ((x, got, subst (λ (z : Value). value_eq x z ≡ true) (sym (some-injective e)) same), tt)
  equality_of-Meets (literal v) (field f) rec h =
      let (x, y, e, got, same) = compared_equal (some v) (get rec f) h in
      (
        (
          y,
          got,
          (cmp_laws y v).1
              ∙ subst (λ (z : Value). value_eq z y ≡ true) (sym (some-injective e)) same,
        ),
        tt,
      )
  equality_of-Meets l r rec h = tt

  -- One turn of the loop of `And`, over what the part came out as and what the rest would be.
  abbrev turn_of : Truth → Truth → Truth → Truth
  turn_of t unsure sure = elim t [
    | Truth.false ↦ Truth.false
    | Truth.unknown ↦ unsure
    | Truth.true ↦ sure
  ]

  turn_true :
      (t unsure sure : Truth)
      → unsure ≢ Truth.true
      → turn_of t unsure sure ≡ Truth.true
      → (t ≡ Truth.true) × (sure ≡ Truth.true)
  turn_true Truth.false unsure sure never h = absurd (cc)
  turn_true Truth.unknown unsure sure never h = absurd (never h)
  turn_true Truth.true unsure sure never h = (refl, h)

  -- Once a part was unknown, the conjunction is not true.
  never_true : (parts : Exprs) (rec : Record) → and_loop parts rec true ≢ Truth.true
  unfolding and_loop
  never_true nil rec h = absurd (cc)
  never_true (cons p parts) rec h =
      never_true parts rec
        (turn_true (evaluate p rec) (and_loop parts rec true) (and_loop parts rec true)
          (never_true parts rec) h).1

  is_true_true : (t : Truth) → is_true t ≡ true → t ≡ Truth.true
  unfolding is_true
  is_true_true Truth.true h = refl
  is_true_true Truth.false h = absurd (cc)
  is_true_true Truth.unknown h = absurd (cc)

  mutual
    unfolding collect_equalities evaluate

    collect_equalities-Meets :
        (e : Expr) (rec : Record) (out : List (String × Value))
        → All (Meets rec) out
        → evaluate e rec ≡ Truth.true
        → All (Meets rec) (collect_equalities e out)
    collect_equalities-Meets (compare CmpOp.eq l r) rec out ok h =
        All-append (Meets rec) out (equality_of l r) ok (equality_of-Meets l r rec h)
    collect_equalities-Meets (and_all parts) rec out ok h =
        collect_parts-Meets parts rec false out ok h
    collect_equalities-Meets e rec out ok h = ok

    collect_parts-Meets :
        (parts : Exprs) (rec : Record) (saw : Bool) (out : List (String × Value))
        → All (Meets rec) out
        → and_loop parts rec saw ≡ Truth.true
        → All (Meets rec) (collect_parts parts out)
    collect_parts-Meets nil rec saw out ok h = ok
    collect_parts-Meets (cons p parts) rec saw out ok h =
        let (head, tail) =
          turn_true (evaluate p rec) (and_loop parts rec true) (and_loop parts rec saw)
            (never_true parts rec) h in
        collect_parts-Meets parts rec saw (collect_equalities p out)
          (collect_equalities-Meets p rec out ok head) tail

  -- Where the predicate is true of a record, every constraint that `equality_constraints` collects
  -- from it is met by the record: its field is there and equal to the constraint's value.
  pub equality_constraints-Meets :
      (e : Expr) (rec : Record) → matches e rec ≡ true → All (Meets rec) (equality_constraints e)
  unfolding equality_constraints matches
  equality_constraints-Meets e rec h =
      collect_equalities-Meets e rec [] tt (is_true_true (evaluate e rec) h)
