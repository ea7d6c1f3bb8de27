-- ===== src/Ir/Constraints/Fields.antt =====
-- What `referenced_fields` of crates/adabt-ir/src/expr.rs lets a projection leave out.
use text.Mathlib.Text.{◌==◌ as str_eq}
use a_da_bt.Prelude.{
  ◌≡◌, refl, ap, ◌∙◌, String, Bool, true, false, ◌||◌, List, [], ◌∷◌, ◌++◌, Option, some, none,
  if◌then◌else◌,
}
use a_da_bt.Core.Value.{Value, null, bool}
use a_da_bt.Core.Order.{value_eq}
use a_da_bt.Core.Names.{contains, str_eq_refl}
use a_da_bt.Core.Float.{FloatOps}
use a_da_bt.Core.Record.{Record, get, project}
use a_da_bt.Core.Record.Laws.{project_lem}
use a_da_bt.Ir.Truth.{Truth, not_truth}
use a_da_bt.Ir.Expr.{
  Expr, Exprs, literal, field, compare, and_all, or_any, negate, is_null_expr, is_not_null,
  arith_expr, in_list, like, nil, cons, value, evaluate, and_loop, or_loop, in_loop, in_truth,
  non_null, truth_of, null_test, not_null_test, like_truth,
}
use a_da_bt.Ir.Constraints.{referenced_fields, referenced_parts}

-- The names of the first list are among those of the second.
abbrev Within : List String → List String → Type 0
Within xs ys = (f : String) → contains xs f ≡ true → contains ys f ≡ true

or_append : (a b c : Bool) → (b ≡ true → c ≡ true) → a || b ≡ true → a || c ≡ true
or_append true b c k e = refl
or_append false b c k e = k e

or_true : (a b : Bool) → b ≡ true → a || b ≡ true
or_true true b h = refl
or_true false b h = h

contains-append :
    (xs : List String) (f g : String) → contains xs f ≡ true → contains (xs ++ g ∷ []) f ≡ true
unfolding contains
contains-append [] f g h = absurd (cc)
contains-append (x ∷ xs) f g h =
    or_append (str_eq x f) (contains xs f) (contains (xs ++ g ∷ []) f) (contains-append xs f g) h

contains-last : (xs : List String) (g : String) → contains (xs ++ g ∷ []) g ≡ true
unfolding contains
contains-last [] g = rw (str_eq_refl g)
contains-last (x ∷ xs) g = or_true (str_eq x g) _ (contains-last xs g)

-- `if !out.contains(f) { out.push(f) }`
abbrev noted : Bool → List String → String → List String
noted seen out g = if seen then out else out ++ g ∷ []

noted-Within : (seen : Bool) (out : List String) (g : String) → Within out (noted seen out g)
noted-Within true out g f h = h
noted-Within false out g f h = contains-append out f g h

noted-contains :
    (seen : Bool) (out : List String) (g : String)
    → contains out g ≡ seen
    → contains (noted seen out g) g ≡ true
noted-contains true out g h = h
noted-contains false out g h = contains-last out g

mutual
  unfolding referenced_fields

  referenced_fields-Within : (e : Expr) (out : List String) → Within out (referenced_fields e out)
  referenced_fields-Within (literal v) out f h = h
  referenced_fields-Within (field g) out f h = noted-Within (contains out g) out g f h
  referenced_fields-Within (compare op l r) out f h =
      referenced_fields-Within r (referenced_fields l out) f (referenced_fields-Within l out f h)
  referenced_fields-Within (and_all parts) out f h = referenced_parts-Within parts out f h
  referenced_fields-Within (or_any parts) out f h = referenced_parts-Within parts out f h
  referenced_fields-Within (negate e) out f h = referenced_fields-Within e out f h
  referenced_fields-Within (is_null_expr e) out f h = referenced_fields-Within e out f h
  referenced_fields-Within (is_not_null e) out f h = referenced_fields-Within e out f h
  referenced_fields-Within (arith_expr op l r) out f h =
      referenced_fields-Within r (referenced_fields l out) f (referenced_fields-Within l out f h)
  referenced_fields-Within (in_list n items) out f h =
      referenced_parts-Within items (referenced_fields n out) f (referenced_fields-Within n out f h)
  referenced_fields-Within (like t p) out f h = referenced_fields-Within t out f h

  referenced_parts-Within : (es : Exprs) (out : List String) → Within out (referenced_parts es out)
  referenced_parts-Within nil out f h = h
  referenced_parts-Within (cons e es) out f h =
      referenced_parts-Within es (referenced_fields e out) f (referenced_fields-Within e out f h)

-- One turn of each loop, over what the part came out as and what the rest would be.
abbrev and_turn : Truth → Truth → Truth → Truth
and_turn t sure unsure = elim t [
  | Truth.false ↦ Truth.false
  | Truth.unknown ↦ unsure
  | Truth.true ↦ sure
]

abbrev or_turn : Truth → Truth → Truth → Truth
or_turn t sure unsure = elim t [
  | Truth.true ↦ Truth.true
  | Truth.unknown ↦ unsure
  | Truth.false ↦ sure
]

module _ ⦃fl : FloatOps⦄ (r s : Record) where
  abbrev in_turn : Value → Option Value → Truth → Truth → Truth
  in_turn n o sure unsure = elim (non_null o) [
    | some v ↦ if value_eq v n then Truth.true else sure
    | none ↦ unsure
  ]

  -- The two records agree on the names.
  abbrev Agree : List String → Type 0
  Agree names = (f : String) → contains names f ≡ true → get r f ≡ get s f

  before : (e : Expr) (out : List String) → Agree (referenced_fields e out) → Agree out
  before e out agree f h = agree f (referenced_fields-Within e out f h)

  before_parts : (es : Exprs) (out : List String) → Agree (referenced_parts es out) → Agree out
  before_parts es out agree f h = agree f (referenced_parts-Within es out f h)

  value_agrees :
      (e : Expr) (out : List String) → Agree (referenced_fields e out) → value e r ≡ value e s
  unfolding value referenced_fields
  value_agrees (field g) out agree = agree g (noted-contains (contains out g) out g refl)
  value_agrees (arith_expr op a b) out agree = rw (
    value_agrees a out (before b (referenced_fields a out) agree),
    value_agrees b (referenced_fields a out) agree,
  )
  value_agrees e out agree = refl

  in_loop_agrees :
      (es : Exprs) (out : List String) (n : Value) (saw : Bool)
      → Agree (referenced_parts es out)
      → in_loop n es r saw ≡ in_loop n es s saw
  unfolding in_loop referenced_parts
  in_loop_agrees nil out n saw agree = refl
  in_loop_agrees (cons e es) out n saw agree =
      let rest = referenced_fields e out in
      ap (λ o. in_turn n o (in_loop n es r saw) (in_loop n es r true))
        (value_agrees e out (before_parts es rest agree))
      ∙ ap (λ t. in_turn n (value e s) t (in_loop n es r true)) (in_loop_agrees es rest n saw agree)
      ∙ ap (λ t. in_turn n (value e s) (in_loop n es s saw) t) (in_loop_agrees es rest n true agree)

  in_truth_agrees :
      (o : Option Value) (es : Exprs) (out : List String)
      → Agree (referenced_parts es out)
      → in_truth o es r ≡ in_truth o es s
  unfolding in_truth
  in_truth_agrees none es out agree = refl
  in_truth_agrees (some n) es out agree = in_loop_agrees es out n false agree

  mutual
    unfolding evaluate referenced_fields

    evaluate_agrees :
        (e : Expr) (out : List String)
        → Agree (referenced_fields e out)
        → evaluate e r ≡ evaluate e s
    evaluate_agrees (literal null) out agree = refl
    evaluate_agrees (literal (bool b)) out agree = refl
    evaluate_agrees (literal v) out agree = refl
    evaluate_agrees (field g) out agree = ap truth_of (value_agrees (field g) out agree)
    evaluate_agrees (compare op a b) out agree = rw (
      value_agrees a out (before b (referenced_fields a out) agree),
      value_agrees b (referenced_fields a out) agree,
    )
    evaluate_agrees (and_all parts) out agree = and_loop_agrees parts out false agree
    evaluate_agrees (or_any parts) out agree = or_loop_agrees parts out false agree
    evaluate_agrees (negate e) out agree = ap not_truth (evaluate_agrees e out agree)
    evaluate_agrees (is_null_expr e) out agree = ap null_test (value_agrees e out agree)
    evaluate_agrees (is_not_null e) out agree = ap not_null_test (value_agrees e out agree)
    evaluate_agrees (arith_expr op a b) out agree =
        ap truth_of (value_agrees (arith_expr op a b) out agree)
    evaluate_agrees (in_list n items) out agree =
        ap (λ o. in_truth (non_null o) items r)
          (value_agrees n out (before_parts items (referenced_fields n out) agree))
        ∙ in_truth_agrees (non_null (value n s)) items (referenced_fields n out) agree
    evaluate_agrees (like t p) out agree = ap (λ o. like_truth o p) (value_agrees t out agree)

    and_loop_agrees :
        (es : Exprs) (out : List String) (saw : Bool)
        → Agree (referenced_parts es out)
        → and_loop es r saw ≡ and_loop es s saw
    and_loop_agrees nil out saw agree = refl
    and_loop_agrees (cons e es) out saw agree =
        let rest = referenced_fields e out in
        ap (λ t. and_turn t (and_loop es r saw) (and_loop es r true))
          (evaluate_agrees e out (before_parts es rest agree))
        ∙ ap (λ t. and_turn (evaluate e s) t (and_loop es r true))
            (and_loop_agrees es rest saw agree)
        ∙ ap (λ t. and_turn (evaluate e s) (and_loop es s saw) t)
            (and_loop_agrees es rest true agree)

    or_loop_agrees :
        (es : Exprs) (out : List String) (saw : Bool)
        → Agree (referenced_parts es out)
        → or_loop es r saw ≡ or_loop es s saw
    or_loop_agrees nil out saw agree = refl
    or_loop_agrees (cons e es) out saw agree =
        let rest = referenced_fields e out in
        ap (λ t. or_turn t (or_loop es r saw) (or_loop es r true))
          (evaluate_agrees e out (before_parts es rest agree))
        ∙ ap (λ t. or_turn (evaluate e s) t (or_loop es r true)) (or_loop_agrees es rest saw agree)
        ∙ ap (λ t. or_turn (evaluate e s) (or_loop es s saw) t) (or_loop_agrees es rest true agree)

module _ ⦃fl : FloatOps⦄ where
  -- A predicate comes out on a record as on the record's projection on the fields that
  -- `referenced_fields` lists, so a scan may leave out every other field.
  pub evaluate-project :
      (e : Expr) (rec : Record) → evaluate e (project rec (referenced_fields e [])) ≡ evaluate e rec
  evaluate-project e rec = evaluate_agrees (project rec (referenced_fields e [])) rec e [] (λ f h.
      (project_lem rec (referenced_fields e []) f).1 ∙ ap (λ b. if b then get rec f else none) h)
