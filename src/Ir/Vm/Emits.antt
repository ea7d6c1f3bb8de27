-- ===== src/Ir/Vm/Emits.antt =====
-- How the methods of crates/adabt-ir/src/vm.rs that emit code extend a program and its tables.
use mathlib.Core.List.{append_assoc, append-nil}
use mathlib.Core.Bool.{false≢true, and-eq-true_iff}
use text.Mathlib.Text.{◌==◌ as str_eq}
use a_da_bt.Prelude.{
  ℕ, suc, ◌+◌, ◌%◌, ◌≤◌, ◌<◌, ◌≡◌, refl, sym, ap, ◌∙◌, String, Bool, true, some, List, [], ◌∷◌,
  ◌++◌, arith, eq_iff, length, length-append, get_elem?, get_elem?-append_left,
  get_elem?-append_length, get_elem?-lt_length, Bool-cases, Option-cases, inl, inr, ==_iff,
}
use a_da_bt.Ir.Like.{Piece, literal, any_run, any_one, parse_like_pattern}
use a_da_bt.Ir.Vm.Program.{Op, load_field, like_op, Program, u32_mod, push}
use a_da_bt.Ir.Vm.Compile.{
  position, intern_field, intern_pattern, emit_load, emit_like, pieces_eq, piece_eq,
}

-- `q` has the tables of `p` and perhaps more entries behind them.
pub record Extends (p q : Program) : Type 0 where
  pub more_fields : List String
  pub fields_eq : q.fields ≡ p.fields ++ more_fields
  pub more_patterns : List (List Piece)
  pub patterns_eq : q.patterns ≡ p.patterns ++ more_patterns

pub Extends-refl : (p q : Program) → q.fields ≡ p.fields → q.patterns ≡ p.patterns → Extends p q
Extends-refl p q e f = record {
  more_fields = [];
  fields_eq = e ∙ sym (append-nil p.fields);
  more_patterns = [];
  patterns_eq = f ∙ sym (append-nil p.patterns);
}

pub Extends-trans : {p q r : Program} → Extends p q → Extends q r → Extends p r
Extends-trans {p} a b = record {
  more_fields = a.more_fields ++ b.more_fields;
  fields_eq = b.fields_eq ∙ rw a.fields_eq (append_assoc p.fields a.more_fields b.more_fields);
  more_patterns = a.more_patterns ++ b.more_patterns;
  patterns_eq =
      b.patterns_eq ∙ rw a.patterns_eq (append_assoc p.patterns a.more_patterns b.more_patterns);
}

pub Extends-push : (op : Op) {p f : Program} → Extends (push op p) f → Extends p f
Extends-push op x = record {
  more_fields = x.more_fields;
  fields_eq = x.fields_eq;
  more_patterns = x.more_patterns;
  patterns_eq = x.patterns_eq;
}

-- The instructions have no part in `Extends`.
pub Extends-ops : {p q : Program} {ops : List Op} → Extends p q → Extends p (record q { ops = ops })
Extends-ops x = record {
  more_fields = x.more_fields;
  fields_eq = x.fields_eq;
  more_patterns = x.more_patterns;
  patterns_eq = x.patterns_eq;
}

pub Extends-refined :
    {p f : Program} {ops : List Op} → Extends (record p { ops = ops }) f → Extends p f
Extends-refined x = record {
  more_fields = x.more_fields;
  fields_eq = x.fields_eq;
  more_patterns = x.more_patterns;
  patterns_eq = x.patterns_eq;
}

-- Every index that the program uses survives its cast to `u32`.
pub record Fits (p : Program) : Type 0 where
  pub ops_fit : length p.ops < u32_mod
  pub fields_fit : length p.fields ≤ length p.ops
  pub patterns_fit : length p.patterns ≤ length p.ops

-- Emission appends code, extends the tables, and adds no more entries than instructions.
pub record Emits (p q : Program) (code : List Op) : Type 0 where
  pub ops_eq : q.ops ≡ p.ops ++ code
  pub extends : Extends p q
  pub fields_grow : length q.fields ≤ length p.fields + length code
  pub patterns_grow : length q.patterns ≤ length p.patterns + length code

pub Emits-refl : (p : Program) → Emits p p []
Emits-refl p = record {
  ops_eq = sym (append-nil p.ops);
  extends = Extends-refl p p refl refl;
  fields_grow = omega arith;
  patterns_grow = omega arith;
}

pub Emits-push : (op : Op) (p : Program) → Emits p (push op p) (op ∷ [])
Emits-push op p = record {
  ops_eq = refl;
  extends = Extends-refl p (push op p) refl refl;
  fields_grow = omega arith;
  patterns_grow = omega arith;
}

pub Emits-trans : {p q r : Program} (c d : List Op) → Emits p q c → Emits q r d → Emits p r (c ++ d)
Emits-trans {p} c d a b = record {
  ops_eq = b.ops_eq ∙ rw a.ops_eq (append_assoc p.ops c d);
  extends = Extends-trans a.extends b.extends;
  fields_grow = omega (arith, a.fields_grow, b.fields_grow, length-append c d);
  patterns_grow = omega (arith, a.patterns_grow, b.patterns_grow, length-append c d);
}

-- A position that was found holds an element that passes the test.
position_sound {ℓ} :
    {A : Type ℓ} (test : A → Bool) (xs : List A) (i k : ℕ)
    → position test xs i ≡ some k
    → (j : ℕ) × (x : A) × (k ≡ i + j) × (get_elem? xs j ≡ some x) × (test x ≡ true)
unfolding position
position_sound test [] i k h = absurd (cc)
position_sound test (x ∷ xs) i k h = elim (Bool-cases (test x)) [
  | inl e ↦ (0, x, ground arith, refl, e)
  | inr e ↦
      let (j, y, a, b, c) = position_sound test xs (suc i) k (ground arith) in
      (suc j, y, omega arith, b, c)
]

str_eq_sound : (s t : String) → str_eq s t ≡ true → s ≡ t
str_eq_sound s t h = (eq_iff s t).0 h

piece_eq_sound : (x y : Piece) → piece_eq x y ≡ true → x ≡ y
piece_eq_sound (literal c) (literal d) h = ap literal ((==_iff c d).0 h)
piece_eq_sound any_run any_run h = refl
piece_eq_sound any_one any_one h = refl
piece_eq_sound (literal c) any_run h = absurd (false≢true h)
piece_eq_sound (literal c) any_one h = absurd (false≢true h)
piece_eq_sound any_run (literal d) h = absurd (false≢true h)
piece_eq_sound any_run any_one h = absurd (false≢true h)
piece_eq_sound any_one (literal d) h = absurd (false≢true h)
piece_eq_sound any_one any_run h = absurd (false≢true h)

pieces_eq_sound : (xs ys : List Piece) → pieces_eq xs ys ≡ true → xs ≡ ys
pieces_eq_sound [] [] h = refl
pieces_eq_sound [] (y ∷ ys) h = absurd (false≢true h)
pieces_eq_sound (x ∷ xs) [] h = absurd (false≢true h)
pieces_eq_sound (x ∷ xs) (y ∷ ys) h =
    let (a, b) = (and-eq-true_iff (piece_eq x y) (pieces_eq xs ys)).0 h in
    cc (piece_eq_sound x y a, pieces_eq_sound xs ys b)

-- An index into a table that the final program extends finds the entry there, cast and all.
index-kept {ℓ} :
    {A : Type ℓ} (xs ys more : List A) (x : A) (j n : ℕ)
    → get_elem? xs j ≡ some x
    → ys ≡ xs ++ more
    → length ys ≤ n
    → n < u32_mod
    → get_elem? ys (j % u32_mod) ≡ some x
index-kept xs ys more x j n h e le lt =
    let kept : get_elem? ys j ≡ some x = rw e (get_elem?-append_left xs more j x h) in
    let small : j % u32_mod ≡ j = omega (arith, get_elem?-lt_length ys j x kept) in rw small kept

index-fresh {ℓ} :
    {A : Type ℓ} (xs ys more : List A) (x : A) (n : ℕ)
    → ys ≡ (xs ++ x ∷ []) ++ more
    → length ys ≤ n
    → n < u32_mod
    → get_elem? ys (length xs % u32_mod) ≡ some x
index-fresh xs ys more x n e le lt =
    index-kept (xs ++ x ∷ []) ys more x (length xs) n (get_elem?-append_length xs [] x) e le lt

-- The interned name stands at its index in every program that extends the one left.
abbrev pub LoadsField : String → Program → ℕ × Program → Type 0
LoadsField name p r =
    Emits p (emit_load r) (load_field r.0 ∷ [])
    × ((f : Program) → Extends (emit_load r) f → Fits f → get_elem? f.fields r.0 ≡ some name)

abbrev pub LoadsPattern : String → Program → ℕ × Program → Type 0
LoadsPattern text p r =
    Emits p (emit_like r) (like_op r.0 ∷ [])
    × ((f : Program)
        → Extends (emit_like r) f
        → Fits f
        → get_elem? f.patterns r.0 ≡ some (parse_like_pattern text))

field_known :
    (name : String) (p : Program) (k : ℕ)
    → position (λ f. str_eq f name) p.fields 0 ≡ some k
    → LoadsField name p (k % u32_mod, p)
field_known name p k e =
    let (j, x, at_j, entry, same) = position_sound (λ f. str_eq f name) p.fields 0 k e in
    let name_eq : x ≡ name = (eq_iff x name).0 same in
    let k_eq : k ≡ j = omega arith in
    (
      Emits-push (load_field (k % u32_mod)) p,
      λ f x fits. rw k_eq (
          index-kept p.fields f.fields x.more_fields name j (length f.ops) (cc) x.fields_eq
            fits.fields_fit fits.ops_fit),
    )

field_fresh :
    (name : String) (p : Program)
    → LoadsField name p (length p.fields % u32_mod, record p { fields = p.fields ++ name ∷ [] })
field_fresh name p = (
  record {
    ops_eq = refl;
    extends = record {
      more_fields = name ∷ [];
      fields_eq = refl;
      more_patterns = [];
      patterns_eq = sym (append-nil p.patterns);
    };
    fields_grow = omega (arith, length-append p.fields (name ∷ []));
    patterns_grow = omega arith;
  },
  λ f x fits.
      index-fresh p.fields f.fields x.more_fields name (length f.ops) x.fields_eq fits.fields_fit
        fits.ops_fit,
)

pub intern_field-LoadsField :
    (name : String) (p : Program) → LoadsField name p (intern_field name p)
unfolding intern_field
intern_field-LoadsField name p = elim (Option-cases (position (λ f. str_eq f name) p.fields 0)) [
  | inl e ↦ rw (e, intern_field) (field_fresh name p)
  | inr (k, e) ↦ rw (e, intern_field) (field_known name p k e)
]

pattern_known :
    (text : String) (p : Program) (k : ℕ)
    → position (λ q. pieces_eq q (parse_like_pattern text)) p.patterns 0 ≡ some k
    → LoadsPattern text p (k % u32_mod, p)
pattern_known text p k e =
    let parsed = parse_like_pattern text in
    let (j, x, at_j, entry, same) =
      position_sound (λ q. pieces_eq q (parse_like_pattern text)) p.patterns 0 k e in
    let entry_eq : x ≡ parse_like_pattern text = pieces_eq_sound x (parse_like_pattern text) same in
    let k_eq : k ≡ j = omega arith in
    (
      Emits-push (like_op (k % u32_mod)) p,
      λ f x fits. rw k_eq (
          index-kept p.patterns f.patterns x.more_patterns parsed j (length f.ops) (cc)
            x.patterns_eq fits.patterns_fit fits.ops_fit),
    )

pattern_fresh :
    (text : String) (p : Program)
    → LoadsPattern text p (
      length p.patterns % u32_mod,
      record p { patterns = p.patterns ++ parse_like_pattern text ∷ [] },
    )
pattern_fresh text p = (
  record {
    ops_eq = refl;
    extends = record {
      more_fields = [];
      fields_eq = sym (append-nil p.fields);
      more_patterns = parse_like_pattern text ∷ [];
      patterns_eq = refl;
    };
    fields_grow = omega arith;
    patterns_grow = omega (arith, length-append p.patterns (parse_like_pattern text ∷ []));
  },
  λ f x fits.
      index-fresh p.patterns f.patterns x.more_patterns (parse_like_pattern text) (length f.ops)
        x.patterns_eq fits.patterns_fit fits.ops_fit,
)

pub intern_pattern-LoadsPattern :
    (text : String) (p : Program) → LoadsPattern text p (intern_pattern text p)
unfolding intern_pattern
intern_pattern-LoadsPattern text p =
    elim (Option-cases (position (λ q. pieces_eq q (parse_like_pattern text)) p.patterns 0)) [
      | inl e ↦ rw (e, intern_pattern) (pattern_fresh text p)
      | inr (k, e) ↦ rw (e, intern_pattern) (pattern_known text p k e)
    ]
