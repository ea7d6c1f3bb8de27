-- ===== src/Ir/Vm/Items.antt =====
-- The items of `In` in crates/adabt-ir/src/vm.rs: their code, and the search through their values.
use mathlib.Core.List.{append_assoc, reverse-append, reverse-reverse}
use a_da_bt.Prelude.{
  ℕ, suc, ◌+◌, ◌≤◌, ◌≡◌, refl, sym, ap, ◌∙◌, Bool, true, false, Option, some, none, List, [], ◌∷◌,
  ◌++◌, reverse, arith, length, length-append, take, drop,
}
use a_da_bt.Core.Value.{Value}
use a_da_bt.Core.Float.{FloatOps}
use a_da_bt.Core.Record.{Record}
use a_da_bt.Ir.Truth.{Truth}
use a_da_bt.Ir.Expr.{Exprs, nil, cons, value, in_loop, in_truth}
use a_da_bt.Ir.Vm.Program.{Op, Program}
use a_da_bt.Ir.Vm.Compile.{emit_value, emit_values, count}
use a_da_bt.Ir.Vm.Machine.{search_items, search_for}
use a_da_bt.Ir.Vm.Reach.{Moves, Moves-nil, Moves-seq}
use a_da_bt.Ir.Vm.Emits.{Extends, Extends-trans, Fits, Emits, Emits-refl, Emits-trans}
use a_da_bt.Ir.Vm.Values.{emit_value-EmitsValue}

module _ {ℓ} {A : Type ℓ} where
  pub length-reverse : (xs : List A) → length (reverse xs) ≡ length xs
  length-reverse [] = refl
  length-reverse (x ∷ xs) =
      rw (reverse-append (x ∷ []) xs)
        (omega (arith, length-append (reverse xs) (x ∷ []), length-reverse xs))

  take-append_length : (xs ys : List A) → take (length xs) (xs ++ ys) ≡ xs
  take-append_length [] ys = refl
  take-append_length (x ∷ xs) ys = ap (λ l. x ∷ l) (take-append_length xs ys)

  drop-append_length : (xs ys : List A) → drop (length xs) (xs ++ ys) ≡ ys
  drop-append_length [] ys = refl
  drop-append_length (x ∷ xs) ys = drop-append_length xs ys

module _ ⦃fl : FloatOps⦄ where
  abbrev pub values : Exprs → Record → List (Option Value)
  values nil rec = []
  values (cons e es) rec = value e rec ∷ values es rec

  -- The value stack after the code of the items.
  abbrev pub values_onto : Exprs → Record → List (Option Value) → List (Option Value)
  values_onto nil rec vals = vals
  values_onto (cons e es) rec vals = values_onto es rec (value e rec ∷ vals)

  length-values : (es : Exprs) (rec : Record) → length (values es rec) ≡ count es
  length-values nil rec = refl
  length-values (cons e es) rec = ap suc (length-values es rec)

  values_onto-reverse :
      (es : Exprs) (rec : Record) (vals : List (Option Value))
      → values_onto es rec vals ≡ reverse (values es rec) ++ vals
  values_onto-reverse nil rec vals = refl
  values_onto-reverse (cons e es) rec vals =
      values_onto-reverse es rec (value e rec ∷ vals)
      ∙ sym (append_assoc (reverse (values es rec)) (value e rec ∷ []) vals)
      ∙ sym (ap (λ l. l ++ vals) (reverse-append (value e rec ∷ []) (values es rec)))

  count-reverse : (es : Exprs) (rec : Record) → count es ≡ length (reverse (values es rec))
  count-reverse es rec = sym (length-reverse (values es rec) ∙ length-values es rec)

  pub reverse-take-values :
      (es : Exprs) (rec : Record) (vals : List (Option Value))
      → reverse (take (count es) (values_onto es rec vals)) ≡ values es rec
  reverse-take-values es rec vals =
      rw (values_onto-reverse es rec vals, count-reverse es rec)
        (rw take-append_length (reverse-reverse (values es rec)))

  pub drop-values :
      (es : Exprs) (rec : Record) (vals : List (Option Value))
      → drop (count es) (values_onto es rec vals) ≡ vals
  drop-values es rec vals =
      rw (values_onto-reverse es rec vals, count-reverse es rec)
        (drop-append_length (reverse (values es rec)) vals)

  pub length-values_onto :
      (es : Exprs) (rec : Record) (vals : List (Option Value))
      → length (values_onto es rec vals) ≡ count es + length vals
  length-values_onto nil rec vals = omega arith
  length-values_onto (cons e es) rec vals =
      omega (arith, length-values_onto es rec (value e rec ∷ vals))

  search_items-in_loop :
      (n : Value) (es : Exprs) (rec : Record) (saw : Bool)
      → search_items n (values es rec) saw ≡ in_loop n es rec saw
  unfolding search_items in_loop
  search_items-in_loop n nil rec saw = refl
  search_items-in_loop n (cons e es) rec saw =
      ground (arith, search_items-in_loop n es rec saw, search_items-in_loop n es rec true)

  -- The machine's search through the values of the items is the evaluator's loop over the items.
  pub search_for-in_truth :
      (needle : Option Value) (es : Exprs) (rec : Record)
      → search_for needle (values es rec) ≡ in_truth needle es rec
  unfolding in_truth
  search_for-in_truth none es rec = refl
  search_for-in_truth (some n) es rec = search_items-in_loop n es rec false

  pub record EmitsValues (es : Exprs) (p q : Program) : Type 0 where
    pub code : List Op
    pub count_le : count es ≤ length code
    pub emits : Emits p q code
    pub runs :
        (f : Program)
        → Extends q f
        → Fits f
        → (rec : Record) (base : ℕ) (vals : List (Option Value)) (truths : List Truth)
        → Moves f rec base code vals truths (values_onto es rec vals) truths

  pub emit_values-EmitsValues : (es : Exprs) (p : Program) → EmitsValues es p (emit_values es p)
  unfolding emit_values
  emit_values-EmitsValues nil p = record {
    code = [];
    count_le = omega arith;
    emits = Emits-refl p;
    runs = λ f x fits rec base vals truths. Moves-nil f rec base vals truths;
  }
  emit_values-EmitsValues (cons e es) p =
      let a = emit_value-EmitsValue e p in
      let b = emit_values-EmitsValues es (emit_value e p) in
      record {
        code = a.code ++ b.code;
        count_le = omega (arith, a.nonempty, b.count_le, length-append a.code b.code);
        emits = Emits-trans a.code b.code a.emits b.emits;
        runs = λ f x fits rec base vals truths.
            Moves-seq f rec a.code b.code base (base + length a.code) refl
              (a.runs f (Extends-trans b.emits.extends x) fits rec base vals truths)
              (b.runs f x fits rec (base + length a.code) (value e rec ∷ vals) truths);
      }
